-- ===== src/Proxy.antt =====
-- network/proxy_client.h and network/proxy_client.cpp: the client of the proxy to the TLS server.
pub mod RecvProxy
pub mod SendProxy
pub mod Bytes
pub mod Calls
pub mod Requests
pub mod Functions
pub mod Receiving
pub mod Network
