-- ===== src/Controller.antt =====
-- The package controller: the handlers of the registry's routes.
pub mod CallInfo
pub mod Request
pub mod Headers
pub mod Pages
pub mod Links
pub mod Names
pub mod Publish
pub mod Listing
pub mod Reading
pub mod Manifest
pub mod Collections
