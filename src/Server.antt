-- ===== src/Server.antt =====
-- The control plane of daemon/server: who is on the LAN, and what an extension may ask.
pub mod Roster
pub mod Snapshot
pub mod Invariant
pub mod Sweeping
pub mod Listing
pub mod Shown
pub mod Debounce
pub mod Hub
pub mod Requests
pub mod Reports
pub mod Control
pub mod Dispatch
pub mod Answers
pub mod Served
pub mod Guards
pub mod Revocation
pub mod Http
pub mod Origins
pub mod Pushed
pub mod Asked
