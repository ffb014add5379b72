-- ===== src/Orders/Service.antt =====
-- orders.service.ts: creation, the transitions, the reads, the listing, and the order as its viewers see it.
mod Views
mod Actions
mod Placing
pub mod Listing
pub mod Lifecycle
pub mod Creation
unfoldable pub use Views.*
unfoldable pub use Actions.*
unfoldable pub use Placing.*
