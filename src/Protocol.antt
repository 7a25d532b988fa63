-- ===== src/Protocol.antt =====
-- The wire format of daemon/protocol.
pub mod Constants
pub mod Json
pub mod Hex
pub mod Code
pub mod Errors
pub mod Types
pub mod PeerMessages
pub mod ControlMessages
pub mod Wire
pub mod Pushes
