-- ===== src/Host.antt =====
-- src/runtime/host/host_update.ts: the install of a host update. The children have the directories
-- and their staged exchange (`Apply`), the decision before it (`Install`), and their laws.
pub mod Apply
pub mod Inputs
pub mod Check
pub mod Install
pub mod Laws
pub mod Rollback
pub mod Unread
