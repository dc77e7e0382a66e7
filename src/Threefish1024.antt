-- ===== src/Threefish1024.antt =====
-- The `threefish1024` crate: authenticated streaming encryption with Threefish-1024 in counter mode.
pub mod Error
pub mod Header
pub mod Ctr
pub mod Deps
pub mod Stream
pub mod Sample
pub mod Tests
