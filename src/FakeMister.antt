-- ===== src/FakeMister.antt =====
-- internal/fakemister: the receiver that stands in for the MiSTer core.
pub mod Tests
pub mod Command
pub mod Reassembler
pub mod Listener
