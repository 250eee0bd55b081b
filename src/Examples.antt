-- ===== src/Examples.antt =====
-- Concrete runs: messages, scalars, parsing, lookups and buffers, and the theorems at concrete inputs.
pub mod Messages
pub mod Scalars
pub mod Parsing
pub mod Tables
pub mod Lookups
pub mod Enums
pub mod Buffers
pub mod Unpacking
pub mod Nested
