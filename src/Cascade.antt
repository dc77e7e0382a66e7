-- ===== src/Cascade.antt =====
-- The `cascade` crate: one encryption layer at a time, under one of four suites.
pub mod AppError
pub mod Algorithm
pub mod Primitives
pub mod Cbc
pub mod Detached
pub mod Serpent
pub mod Threefish
pub mod Aes
pub mod Xchacha
pub mod Dispatch
pub mod Container
pub mod Sample
pub mod Tests
