-- ===== src/Orders/Repository.antt =====
-- orders.repository.ts: its reads and its two transactions.
mod Reads
mod Creation
mod Transitions
unfoldable pub use Reads.*
unfoldable pub use Creation.*
unfoldable pub use Transitions.*
