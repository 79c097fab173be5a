-- ===== src/Routes.antt =====
-- Messages on their whole way between the clients of a gateway (gateway/wss/hub.go) and a logic server
-- (server/hub/hub.go), through the proxy (lgcluster/proxy.go) and one connection (peer/tcp_peer.go).
pub mod Link
pub mod Sending
pub mod Uplink
pub mod Writing
pub mod Downlink
pub mod Logins
mod Tests
