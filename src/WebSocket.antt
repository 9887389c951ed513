-- ===== src/WebSocket.antt =====
-- The WebSocket side of the server, WebSocket/ in MiniWebSrv/HTTP.
pub mod Mask
pub mod Frame
pub mod Session
pub mod Send
pub mod Base64
pub mod Handshake
mod Tests
