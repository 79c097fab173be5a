-- ===== src/Peer.antt =====
-- peer/: the connections between gateways, logic servers and clients.
pub mod Samples
pub mod Seq
pub mod Event
pub mod Net
pub mod Unsafe
pub mod OpCode
pub mod Frame
pub mod Handshake
pub mod Stream
pub mod Server
pub mod Client
mod Tests
