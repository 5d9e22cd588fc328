-- ===== src/Cloud.antt =====
-- Synchronisation between devices (cloud/).
pub mod Row
pub mod Merge
pub mod SyncRequests
pub mod OwnerLock
