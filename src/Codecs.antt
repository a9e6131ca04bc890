-- ===== src/Codecs.antt =====
-- src/ams/codecs: the grouped low-bit codecs.
pub mod Floats
pub mod Groups
pub mod Grouped
pub mod Sink
pub mod Stream
pub mod Int4
pub mod Ternary
mod Integers
mod Tests
mod StreamTests
mod TernaryTests
