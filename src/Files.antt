-- ===== src/Files.antt =====
-- repo/files: the storage in a directory.
pub mod Archive
pub mod Access
pub mod Backend
pub mod Extraction
pub mod Confined
pub mod Escape
pub mod Writing
