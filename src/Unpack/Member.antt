-- ===== src/Unpack/Member.antt =====
-- Where a member ends: the `switch` on the wire type in the first phase of
-- `protobuf_c_message_unpack`, src/google/protobuf-c/protobuf-c.c.
pub mod Laws
use protobuf_c.Base.{ℕ, zero, suc, ◌+◌, ltb, ◌==◌, if◌then◌else◌, Option, none, some}
use protobuf_c.Memory.Input.{Input}
use protobuf_c.Unpack.Scan.{scan_length_prefixed_data, varint_end_loop}

-- `tmp.len` and `tmp.length_prefix_len` for a length-prefixed member.
unfoldable pub scan_prefixed : ℕ → Input → Option (ℕ × ℕ)
scan_prefixed rem at =
    let (len, pref_len) = scan_length_prefixed_data rem at in
    if len == 0 then none else some (len, pref_len)

-- `tmp.len` for a varint; the prefix is not set there, and stands as 0.
unfoldable pub scan_varint_member : ℕ → Input → Option (ℕ × ℕ)
scan_varint_member rem at =
    let max_len = if ltb rem 10 then rem else 10 in
    elim (varint_end_loop max_len at 0) [ none ↦ none | some i ↦ some (i + 1, 0) ]

-- By the code of the wire type, with `rem` bytes from `at` on. `none` leads to the cleanup: the groups,
-- which are not supported, and the codes 6 and 7 reach the `default`.
unfoldable pub scan_member : ℕ → ℕ → Input → Option (ℕ × ℕ)
scan_member wire_type rem at =
    if wire_type == 0
    then scan_varint_member rem at
    else if wire_type == 1
    then if ltb rem 8 then none else some (8, 0)
    else if wire_type == 2
    then scan_prefixed rem at
    else if wire_type == 5
    then if ltb rem 4 then none else some (4, 0)
    else none
