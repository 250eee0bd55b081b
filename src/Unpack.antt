-- ===== src/Unpack.antt =====
-- Unpacking: src/google/protobuf-c/protobuf-c.c, "unpack()".
pub mod Scan
pub mod Packed
pub mod Member
pub mod Outcome
pub mod Value
pub mod Fields
pub mod Loop
pub mod Whole
pub mod Inverse
