-- ===== src/Tests.antt =====
-- Inputs at which the theorems apply.
pub mod Memory
pub mod Bucket
pub mod VersionTests
pub mod ControllerTests
pub mod CollectionTests
pub mod S3Tests
pub mod ServerTests
pub mod LoginTests
pub mod BackendTests
pub mod LockTests
pub mod ReadingTests
pub mod StoringTests
pub mod SendingTests
