-- ===== src/Models.antt =====
-- models/models.go: versions, upload elements and the list of releases.
pub mod Version
pub mod Element
pub mod Release
