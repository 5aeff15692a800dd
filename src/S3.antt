-- ===== src/S3.antt =====
-- repo/s3: the storage in an S3 bucket.
pub mod Keys
pub mod Client
pub mod Pages
pub mod Backend
