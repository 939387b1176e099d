-- ===== src/Examples.antt =====
-- Concrete runs of the components.
pub mod Devices
pub mod Observing
pub mod Stores
pub mod Wire
pub mod Cooking
pub mod Writing
pub mod Sweeping
pub mod Starting
