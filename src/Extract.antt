-- ===== src/Extract.antt =====
-- extract/: which messages of a conversation go to the extractor.
pub mod Cursor
