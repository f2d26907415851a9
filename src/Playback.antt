-- ===== src/Playback.antt =====
-- internal/adapters/registry.go and internal/playback: which adapter serves a request.
pub mod Registry
pub mod Dispatcher
pub mod Tests
