-- ===== src/Peer.antt =====
-- The LAN-facing half of the daemon, daemon/peer.
pub mod State
pub mod Addr
pub mod Conn
pub mod Registry
pub mod Pending
pub mod Driver
pub mod Frames
pub mod Listener
pub mod Dialer
pub mod Reconnect
pub mod Relay
pub mod Backoff
pub mod Straggler
pub mod Shutdown
pub mod Quiet
pub mod Silent
pub mod Delivery
pub mod Outcome
pub mod Consent
pub mod Round
pub mod Unpromoted
pub mod Admission
pub mod Agreement
pub mod Forgetting
pub mod Reporting
pub mod Sending
pub mod Slots
