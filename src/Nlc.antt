-- ===== src/Nlc.antt =====
-- internal/groovy/nlc: the GroovyNLC frame codec.
pub mod Tests
pub mod Colour
pub mod Residual
pub mod BitIo
pub mod Dpcm
pub mod Pack
pub mod Planes
pub mod Frame
