-- ===== src/Descriptors.antt =====
-- src/ams/descriptors.py: the immutable descriptors of packages and conversions.
pub mod Syntax
pub mod Storage
pub mod Tensor
pub mod Bounds
mod Tests
pub mod Journal
pub mod Entries
