-- ===== src/Registry/Common.antt =====
-- registry/capabilities/common.py
pub mod Options
pub mod Rows
