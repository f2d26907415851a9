-- ===== src/Net.antt =====
-- internal/groovynet: the sender's side of the UDP socket.
pub mod Tests
pub mod Sender
pub mod Handshake
