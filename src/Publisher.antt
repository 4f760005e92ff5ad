-- ===== src/Publisher.antt =====
-- internal/publisher: sends the buffered deposits to the Adapter over a WebSocket.
pub mod Protocol
pub mod Outstanding
pub mod AckMode
pub mod FireAndForget
pub mod Connections
