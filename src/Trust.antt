-- ===== src/Trust.antt =====
-- The paired-device store of daemon/config/trust.go. The store's methods run under its locks, one
-- at a time, so that each is a function from state to state. The state is the map in memory and the
-- files on disk; the clock and the outcome of each system call are arguments.
pub mod Disk
pub mod Order
pub mod Store
pub mod Load
pub mod Invariant
pub mod Verify
pub mod Persistence
