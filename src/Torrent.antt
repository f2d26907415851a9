-- ===== src/Torrent.antt =====
-- internal/adapters/torrent: the choice of the file that is played.
pub mod Select
pub mod Tests
