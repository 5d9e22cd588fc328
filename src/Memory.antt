-- ===== src/Memory.antt =====
-- The memory services (memory/).
pub mod Supersession
pub mod Lifecycle
pub mod BranchState
pub mod Retention
pub mod EvidenceMerge
pub mod Facts
pub mod Reviews
pub mod Promotion
pub mod Conflicts
pub mod Triage
