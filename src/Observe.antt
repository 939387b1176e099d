-- ===== src/Observe.antt =====
-- observe.py: push and poll, the write-settle guard, and the sweep that finds missed pushes
pub mod State
pub mod Settle
pub mod Apply
pub mod Taps
pub mod Notify
pub mod Mode
pub mod Sweep
pub mod Tracking
