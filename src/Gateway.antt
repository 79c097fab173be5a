-- ===== src/Gateway.antt =====
-- gateway/wss/: the gateway, which holds the clients' connections.
pub mod Queue
pub mod Samples
pub mod Hub
pub mod Upgrader
pub mod Running
