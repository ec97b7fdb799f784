-- ===== src/Book.antt =====
-- cpp/include/order_book_manager.hpp: the local order books.
pub mod Double
pub mod Types
pub mod Side
pub mod Sequence
pub mod Slot
pub mod Apply
pub mod Snapshot
pub mod Publish
pub mod Lifecycle
pub mod Manager
pub mod Examples
