-- ===== src/Registry.antt =====
-- registry/: the tables that bind resources to entities, and the helpers they share.
pub mod Common
pub mod Batch
pub mod UsageDb
pub mod Subdevices
pub mod Capability
pub mod Discovery
pub mod Adapter
pub mod Tables
pub mod Partition
pub mod Identity
pub mod Cook
pub mod Redact
pub mod Flat
pub mod Encode
