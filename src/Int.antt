-- ===== src/Int.antt =====
-- Go's `int` on a 64-bit machine: an integer whose sums, differences and products wrap around.
mod Defs
mod Laws
unfoldable pub use Defs.*
pub use Laws.*
