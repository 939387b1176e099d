-- ===== src/Registry/Cook.antt =====
-- registry/capabilities/cook.py: starting a cook, checked against what the board declares
pub mod Times
pub mod Fields
pub mod Specs
pub mod Sharing
pub mod Views
pub mod Start
pub mod Held
pub mod Overlay
