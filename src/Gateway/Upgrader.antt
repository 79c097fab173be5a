-- ===== src/Gateway/Upgrader.antt =====
-- gateway/wss/upgrader.go: a new connection on its way to the gateway.
pub mod Text
pub mod Parameters
pub mod Connection
pub mod Listening
pub mod Laws
pub mod Refusals
pub mod RoundTrip
mod Tests
