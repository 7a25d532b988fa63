-- ===== src/Tests.antt =====
-- The theorems of the other modules at concrete inputs: two devices, a laptop and a phone.
mod Fixtures
mod Limiter
mod Store
mod Wire
mod Pairing
mod Relaying
mod Roster
mod Browsing
mod Control
mod Configuration
