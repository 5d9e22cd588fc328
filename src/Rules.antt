-- ===== src/Rules.antt =====
-- Global rules and their recorded verification results (rules/).
pub mod Attestations
pub mod Merge
pub mod Paging
pub mod Recording
