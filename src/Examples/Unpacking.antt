-- ===== src/Examples/Unpacking.antt =====
-- The bytes of a message with a number and a list of strings, and the theorems on unpacking at them.
use protobuf_c.Base.{ℕ, zero, suc, ◌+◌, ◌≡◌, refl, arith, none, List, [], ◌∷◌, length, u64}
use protobuf_c.Message.{single, array, word32, chars, to}
use protobuf_c.Message.Init.{message_init_generic, initial_slot}
use protobuf_c.Scalar.Parse.{parse_tag_and_wiretype, parse_tag_loop, parse_int32, parse_uint32}
use protobuf_c.Lookup.{int_range_lookup, search_loop, last_entry}
use protobuf_c.Unpack.Scan.{varint_end_loop, scan_length_prefixed_data, scan_length_loop}
use protobuf_c.Unpack.Member.{scan_member, scan_prefixed, scan_varint_member}
use protobuf_c.Unpack.Outcome.{Outcome, returned, failed, Yields, do_alloc, alloc}
use protobuf_c.Unpack.Value.{parse_required_member, parse_value, parse_string, store_string}
use protobuf_c.Unpack.Loop.{
  Scan, start, scan_loop, scan_round, scan_field, find_field, lookup_field, note_field, next_slab,
  keep_member, count_member, count_elements,
}
use protobuf_c.Unpack.Whole.{
  Generated, message_unpack, unpack_message, build_message, prepare_fields, prepare_field,
  prepare_labelled, allocate_array,
}
use protobuf_c.Unpack.Fields.{
  parse_members, parse_member, parse_into, parse_slot, parse_labelled, parse_array,
  parse_repeated_member,
}
use protobuf_c.Unpack.Whole.Required.{message_unpack-missing}
use protobuf_c.Unpack.Whole.Stored.{elements_at}
use protobuf_c.Unpack.Whole.Counted.{build_message-counted}
use protobuf_c.Examples.Lookups.{field_a, field_b, two_fields, two_fields-IsNumberIndex}
use protobuf_c.Examples.Parsing.{from_list}

-- The number 5, "hi" and "".
abbrev wire : List ℕ
wire = 8 ∷ 5 ∷ 26 ∷ 2 ∷ 104 ∷ 105 ∷ 26 ∷ 0 ∷ []

-- An allocator that always answers, and generated code without defaults.
abbrev pub answers : ℕ → ℕ
answers k = k + 1

abbrev generated : Generated
generated = record {
  submessage_descriptor = λ field. two_fields;
  default_member = λ d field. word32 0;
  message_init = λ d desc. none;
}

message_unpack-missing_example :
    message_unpack answers generated 1 two_fields 4 (from_list (26 ∷ 2 ∷ 104 ∷ 105 ∷ [])) 0 ≡ failed
message_unpack-missing_example =
    message_unpack-missing answers generated 0 two_fields 4 (from_list (26 ∷ 2 ∷ 104 ∷ 105 ∷ [])) 0
      0 field_b two_fields-IsNumberIndex (omega arith) refl refl refl
      (unfold scan_loop scan_round scan_field find_field lookup_field note_field next_slab
          keep_member count_member count_elements scan_member scan_prefixed scan_varint_member
          varint_end_loop scan_length_prefixed_data scan_length_loop parse_tag_and_wiretype
          parse_tag_loop int_range_lookup search_loop last_entry in
        λ c. refl)

abbrev result : Outcome Scan → Scan
result (returned st calls) = st
result _ = start two_fields

-- What the scan finds in the bytes.
abbrev scanned : Scan
scanned = result (scan_loop answers two_fields 8 8 (from_list wire) (start two_fields) 0)

no_elements :
    (f : ℕ) → elements_at (message_init_generic (generated.default_member 0) two_fields) f ≡ []
unfolding message_init_generic initial_slot
no_elements zero = refl
no_elements (suc zero) = refl
no_elements (suc (suc f)) = refl

build_message-counted_example :
    Yields
      (build_message answers
        (message_unpack answers generated 0)
        generated.submessage_descriptor
        two_fields
        scanned
        (message_init_generic (generated.default_member 0) two_fields)
        0)
      (λ msg. u64 (length (elements_at msg 1)) ≡ scanned.counts 1)
build_message-counted_example =
    build_message-counted answers (message_unpack answers generated 0)
      generated.submessage_descriptor two_fields 8 (from_list wire) 0 0 1 scanned field_a
      (message_init_generic (generated.default_member 0) two_fields) two_fields-IsNumberIndex
      (unfold scan_loop scan_round scan_field find_field lookup_field note_field next_slab
          keep_member count_member count_elements scan_member scan_prefixed scan_varint_member
          varint_end_loop scan_length_prefixed_data scan_length_loop parse_tag_and_wiretype
          parse_tag_loop int_range_lookup search_loop last_entry in
        refl)
      no_elements refl refl

-- A whole run.
unpacked :
    message_unpack answers generated 1 two_fields 8 (from_list wire) 0
    ≡ returned
        (
          1,
          record {
            descriptor = two_fields;
            slots =
                single 0 (word32 5)
                ∷ array (chars (to 3 (104 ∷ 105 ∷ [])) ∷ chars (to 4 []) ∷ [])
                ∷ [];
            unknown_fields = [];
          },
        )
        4
unfolding message_unpack unpack_message build_message prepare_fields prepare_field prepare_labelled
    allocate_array parse_members parse_member parse_into parse_slot parse_labelled parse_array
    parse_repeated_member parse_required_member parse_value parse_string store_string do_alloc alloc
    message_init_generic initial_slot parse_int32 parse_uint32 scan_loop scan_round scan_field
    find_field lookup_field note_field next_slab keep_member count_member count_elements scan_member
    scan_prefixed scan_varint_member varint_end_loop scan_length_prefixed_data scan_length_loop
    parse_tag_and_wiretype parse_tag_loop int_range_lookup search_loop last_entry
unpacked = refl
