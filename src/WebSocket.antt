-- ===== src/WebSocket.antt =====
-- The WebSocket frame codec of src/websocket/parser.
pub mod Frame
pub mod Parse
pub mod Packet
pub mod Masking
pub mod Wire
pub mod Print
pub mod RoundTrip
pub mod Safety
pub mod Limits
