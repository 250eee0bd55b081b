-- ===== src/Scalar.antt =====
-- The scalar routines of src/google/protobuf-c/protobuf-c.c: `Size` has the sizes, `Pack` what
-- writes one value, `Parse` what reads one back, `Scan` what finds where a value ends; `Base128`
-- is the encoding that these stand for.
pub mod Size
pub mod Base128
pub mod Length
pub mod Pack
pub mod Parse
