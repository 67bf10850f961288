-- ===== src/Multi.antt =====
-- src/vr_multi.c: transactions and watched keys.
pub mod State
pub mod Watch
pub mod Keys
pub mod Linked
pub mod Unwatch
pub mod Transaction
pub mod Marks
pub mod Flush
pub mod Keeps
pub mod Discard
pub mod Runs
pub mod Reach
pub mod Promise
pub mod Queue
mod Tests
