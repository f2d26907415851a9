-- ===== src/Dataplane.antt =====
-- internal/dataplane: the parts of the plane that keep state of their own.
pub mod Tests
pub mod AudioRing
pub mod FieldParity
pub mod Codec
