-- ===== src/Lib.antt =====
-- protobuf-c: the serializer of src/google/protobuf-c/protobuf-c.c and the descriptors of
-- src/google/protobuf-c/protobuf-c.h.
--
-- Parts, and the files that model them:
-- - Base: shared names, tests, lists, C's unsigned types (`u8`, `u32`, `u64`), bit operations as
--   arithmetic.
-- - Memory: memory as a function from addresses, `memcpy`, `memmove`, and what they leave. A routine
--   that writes through `out` is a `Writer`: from `out` and the memory to its result and the memory.
-- - Scalar: `Scalar.Size` has get_tag_size, uint32_size, int32_size, uint64_size and the zigzag
--   transforms; `Scalar.Pack` has uint32_pack, int32_pack, uint64_pack, tag_pack and the rest of the
--   scalar writers; `Scalar.Parse` has what reads one scalar; `Scalar.Base128` is the encoding that they are held to.
-- - Message: descriptors, members and messages. `Message.PackedSize` is
--   protobuf_c_message_get_packed_size, `Message.Pack` is protobuf_c_message_pack, each with its field
--   routines under the names of the source; `Message.Encode` is the encoding as a function into
--   bytes, and `Message.Valid` says which messages the theorems are about. `Message.Wire` is the
--   wire format of protobuf, beside that encoding. `Message.ToBuffer` is
--   protobuf_c_message_pack_to_buffer over any buffer: `Buffer` is the interface of its `append`.
-- - Lookup: int_range_lookup and the lookups in descriptors, by number and by name, as instances of one
--   binary search over a probe.
-- - Unpack: `Unpack.Scan` has what finds where a value ends, `Unpack.Packed` is
--   parse_packed_repeated_member, and `Unpack.Member` is the switch of protobuf_c_message_unpack that
--   finds where a member ends. `Unpack.Loop` is its scan, `Unpack.Value` is parse_required_member,
--   `Unpack.Fields` is parse_member with the routines for each label, and `Unpack.Whole` is
--   protobuf_c_message_unpack, from the allocation of the message on. `Unpack.Outcome` has how a run
--   may end; `Message.Init` is protobuf_c_message_init_generic. `Unpack.Inverse` cuts an encoded
--   message into the pieces that the scan finds, and follows them through the unpacking.
-- - BufferSimple: protobuf_c_buffer_simple_append over the memory and an allocator.
-- - Examples: concrete runs, and the theorems at concrete inputs.
--
-- Conventions. A signed integer is its bit pattern. A `size_t` sum of the size routines is taken
-- modulo 2 ^ 64, and a length passed as `uint32_t` modulo 2 ^ 32; a `size_t` count of bytes that stand in
-- memory does not wrap, and one in an `unsigned` does (`place_length`, `unsigned_loop`). A shift of an
-- `unsigned` by 32 or more is an access out of bounds of the model (`shifted_one`). The encoding is the
-- program's own: protobuf's, but for a negative enum, a varint of 32 bits here, and for lengths, which
-- are taken in 32 bits. An array is shorter than 2 ^ 32. The machine is little-endian
-- (`IS_LITTLE_ENDIAN`), and the portable variants of fixed32_pack and fixed64_pack are modelled beside
-- the others. `assert` is off. A message nests less deep than the `d` of its type `Message d`, and its
-- routines recur on `d`; the loop of uint64_pack has four rounds, enough for the 29 bits that it
-- is given. A member is read through an accessor for the type in its descriptor, and a slot stands
-- for the member and its quantifier, so offsets into the struct do not appear.
--
-- A `const uint8_t *` is a function from indices. The searches and the packed loop take fuel: one
-- round more than there are entries, and one for each byte, since a round halves the entries, or
-- takes a byte at least; the growth of a buffer takes 64 rounds, the bits of a `size_t`. `Run` tells a read past a table and a lack of fuel apart from a result.
--
-- In unpacking the allocator is the sequence of the addresses that it answers, 0 for NULL, so what was
-- freed in between may show in the answers only; it has no `tmp_alloc`, as the default one. A message
-- that nests `d` deep or deeper ends a run on `Message d` with `out_of_fuel`. The scan has as many
-- rounds as there are bytes. The descriptor of a submessage, the defaults and `message_init` stand in
-- generated code, and are a parameter (`Generated`). The sizes that the allocator is asked for do not
-- appear in what it answers. A buffer that is packed to does not fail.
--
-- Not modelled: in protobuf-c.c what protobuf_c_message_unpack frees, free_unpacked, the allocator
-- itself and the service calls; the RPC system, the dispatch loop and the data
-- buffer (network and event loop); the C++ code generator; the tests and the example programs.
pub mod Base
pub mod Memory
pub mod Scalar
pub mod Message
pub mod Lookup
pub mod Unpack
pub mod BufferSimple
mod Examples
