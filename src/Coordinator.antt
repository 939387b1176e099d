-- ===== src/Coordinator.antt =====
-- coordinator.py: how an entity's write reaches the appliance
pub mod Presence
pub mod Put
pub mod Sweep
pub mod Write
pub mod Cooking
