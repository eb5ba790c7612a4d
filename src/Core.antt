-- ===== src/Core.antt =====
-- The framework core, core/src and core/include.
pub mod Result
pub mod Catalog
pub mod Route
pub mod Msg
pub mod LeasePool
pub mod Mailbox
pub mod Actor
pub mod DomainPump
pub mod SystemPump
pub mod Publish
