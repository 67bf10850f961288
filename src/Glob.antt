-- ===== src/Glob.antt =====
-- src/vr_util.c: glob patterns.
pub mod Class
pub mod Match
pub mod Plain
pub mod Shorter
pub mod Enough
pub mod Equivalence
pub mod Total
mod Tests
