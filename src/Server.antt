-- ===== src/Server.antt =====
-- server/: the requests' way to their handlers.
pub mod Routes
pub mod Frame
pub mod WebSocket
