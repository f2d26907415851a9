-- ===== src/Hls.antt =====
-- internal/hlsbuffer: the buffer between an HLS source and the player.
pub mod Text
pub mod Cache
pub mod Variant
pub mod Playlist
pub mod Validator
pub mod Tests
