-- ===== src/Ws.antt =====
-- network/ws.h and network/ws.cpp: WebSocket framing, the send and the receive context.
pub mod Header
pub mod Base64
pub mod Mask
pub mod SendBuffer
pub mod FlushCtx
pub mod Send
pub mod Channel
pub mod Recv
pub mod Socket
pub mod Message
pub mod Url
pub mod Handshake
