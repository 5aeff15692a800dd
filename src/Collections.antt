-- ===== src/Collections.antt =====
-- Package collections: models/collections.go and repo/collections.go.
pub mod Data
pub mod Manifest
pub mod Grouping
pub mod Versions
pub mod Generate
