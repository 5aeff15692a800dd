-- ===== src/Maven.antt =====
-- repo/maven: the storage in a Maven repository.
pub mod Coordinates
pub mod Reader
pub mod Client
pub mod Metadata
pub mod Access
pub mod Backend
pub mod Content
pub mod Locking
pub mod FilePaths
