-- ===== src/Registry/Subdevices.antt =====
-- registry/subdevices.py: the logical subdevices behind one connection
pub mod Defs
pub mod Probing
pub mod Enumerate
