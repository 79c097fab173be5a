-- ===== src/Wire.antt =====
-- wire/: the bytes that the gateways, the logic servers and the clients exchange.
pub mod Buffer
pub mod Uint
pub mod Common
pub mod Ksuid
pub mod Sid
pub mod Pid
pub mod AckCode
pub mod Protocol
pub mod Entity
pub mod Header
pub mod Message
pub mod Relay
pub mod Text
pub mod GrpcHelper
pub mod Samples
mod Tests
