-- ===== src/Unpack/Loop/Rounds.antt =====
-- Round by round the loop of the scan comes to its end.
use mathlib.Core.Option
use protobuf_c.Base.{
  ℕ, zero, suc, ◌+◌, ◌-◌, ◌^◌, ◌≤◌, length, ◌≡◌, refl, arith, IsU32, ◌==◌, false, Option, none,
  some, get_elem?,
}
use protobuf_c.Memory.Input.{Input, advance}
use protobuf_c.Message.{FieldDescriptor, MessageDescriptor}
use protobuf_c.Scalar.Parse.{parse_tag_and_wiretype}
use protobuf_c.Unpack.Member.{scan_member}
use protobuf_c.Unpack.Member.Laws.{scan_member-within}
use protobuf_c.Unpack.Outcome.{Ends, EndsOr, EndsOr-bind, Ends-EndsOr}
use protobuf_c.Unpack.Value.{ScannedMember}
use protobuf_c.Unpack.Loop.{
  Scan, keep_member, start, find_field, or_fail, scan_field, scan_round, scan_loop,
}
use protobuf_c.Unpack.Loop.Tally.{FromDesc}
use protobuf_c.Unpack.Loop.Steps.{IsIndexed, find_field-Ends}
use protobuf_c.Unpack.Loop.Invariant.{IsScan, Kept, or_fail-Ends, keep_member-IsScan}
use protobuf_c.Unpack.Loop.Ends.{parse_tag_and_wiretype-within}

-- A round takes some of the bytes that there are, and finds one member.
abbrev pub Advances : MessageDescriptor → ℕ → Scan → ℕ × Scan → Type 0
Advances desc rem st r =
    (1 ≤ r.0) × (r.0 ≤ rem) × IsScan desc r.1 × (length r.1.members ≡ length st.members + 1)

first_field :
    (desc : MessageDescriptor) (o : Option FieldDescriptor)
    → get_elem? desc.fields 0 ≡ o
    → FromDesc desc (Option.map (λ field. (0, field)) o)
first_field desc none e = tt
first_field desc (some field) e = e

module _ (answers : ℕ → ℕ) (desc : MessageDescriptor) (indexed : IsIndexed desc) where
  scan_field-EndsOr :
      (E : Type 0) (tag wire_type rem : ℕ) (at : Input) (st : Scan) (calls : ℕ)
      → IsU32 tag
      → IsScan desc st
      → (2 ^ 32 ≤ length st.members + 16 → E)
      → EndsOr E (scan_field answers desc tag wire_type rem at st calls) (Advances desc rem st)
  unfolding scan_field
  scan_field-EndsOr E tag wire_type rem at st calls fits ok overlong =
      EndsOr-bind E (FromDesc desc) (Advances desc rem st) _ (find_field desc st.last_field tag)
        calls
        (Ends-EndsOr E (FromDesc desc) (find_field desc st.last_field tag calls)
          (find_field-Ends desc indexed tag fits st.last_field calls ok.last))
        λ field calls1 valid.
          EndsOr-bind E (λ r. scan_member wire_type rem at ≡ some r) (Advances desc rem st) _
            (or_fail (scan_member wire_type rem at)) calls1
            (Ends-EndsOr E (λ r. scan_member wire_type rem at ≡ some r)
              (or_fail (scan_member wire_type rem at) calls1)
              (or_fail-Ends (scan_member wire_type rem at) calls1))
            λ (len, pref_len) calls2 e.
              let m : ScannedMember = record {
                tag = tag;
                wire_type = wire_type;
                length_prefix_len = pref_len;
                field = field;
                len = len;
                input = at;
              } in
              let (low, high) = scan_member-within wire_type rem at len pref_len e in
              EndsOr-bind E (Kept desc m st valid ok) (Advances desc rem st) _
                (keep_member answers m st) calls2
                (keep_member-IsScan desc m st valid ok E answers calls2 overlong)
                λ st' calls3 (ok', more). (low, high, ok', more)

  pub scan_round-EndsOr :
      (E : Type 0) (rem : ℕ) (at : Input) (st : Scan) (calls : ℕ)
      → 1 ≤ rem
      → IsScan desc st
      → (2 ^ 32 ≤ length st.members + 16 → E)
      → EndsOr E (scan_round answers desc rem at st calls) (Advances desc rem st)
  unfolding scan_round
  scan_round-EndsOr E rem at st calls some_bytes ok overlong =
      EndsOr-bind E (λ r. parse_tag_and_wiretype rem at ≡ some r) (Advances desc rem st) _
        (or_fail (parse_tag_and_wiretype rem at)) calls
        (Ends-EndsOr E (λ r. parse_tag_and_wiretype rem at ≡ some r)
          (or_fail (parse_tag_and_wiretype rem at) calls)
          (or_fail-Ends (parse_tag_and_wiretype rem at) calls))
        λ (used, tag, wire_type) calls1 e.
          let (low, high, fits) =
            parse_tag_and_wiretype-within rem at used tag wire_type e some_bytes in
          EndsOr-bind E (Advances desc (rem - used) st) (Advances desc rem st) _
            (scan_field answers desc tag wire_type (rem - used) (advance at used) st) calls1
            (scan_field-EndsOr E tag wire_type (rem - used) (advance at used) st calls1 fits ok
              overlong)
            λ (len, st') calls2 (some_len, within, ok', more). (omega arith, omega arith, ok', more)

  -- From any round on: a member takes a byte at least.
  scan_loop-EndsOr_from :
      (E : Type 0) (fuel rem : ℕ) (at : Input) (st : Scan) (calls : ℕ)
      → rem ≤ fuel
      → IsScan desc st
      → (2 ^ 32 ≤ length st.members + rem + 16 → E)
      → EndsOr E (scan_loop answers desc fuel rem at st calls) (IsScan desc)
  unfolding scan_loop
  scan_loop-EndsOr_from E zero zero at st calls enough ok overlong = ok
  scan_loop-EndsOr_from E zero (suc rem) at st calls enough ok overlong = absurd (omega arith)
  scan_loop-EndsOr_from E (suc fuel) zero at st calls enough ok overlong = ok
  scan_loop-EndsOr_from E (suc fuel) (suc rem) at st calls enough ok overlong =
      let more : (suc rem == 0) ≡ false = ground arith in
      rw more (
        EndsOr-bind E (Advances desc (suc rem) st) (IsScan desc) _
          (scan_round answers desc (suc rem) at st) calls
          (scan_round-EndsOr E (suc rem) at st calls (omega arith) ok
            λ (h : 2 ^ 32 ≤ length st.members + 16). overlong (omega (arith, h)))
          λ (n, st') calls' (low, high, ok', count).
            scan_loop-EndsOr_from E fuel (suc rem - n) (advance at n) st' calls' (omega arith) ok'
              λ (h : 2 ^ 32 ≤ length st'.members + (suc rem - n) + 16).
                overlong (omega (arith, h, count, low, high)))

  pub start-IsScan : IsScan desc (start desc)
  start-IsScan = record {
    last = first_field desc (get_elem? desc.fields 0) refl;
    fields = tt;
    countable = tt;
    bits = λ f. refl;
    counted = λ f. refl;
    unknown = refl;
    slabs = omega arith;
  }

  -- Whatever the input holds, the loop comes to its end within `len` rounds, and its account is true,
  -- unless there are 2 ^ 32 - 16 bytes or more.
  pub scan_loop-EndsOr :
      (len : ℕ) (input : Input) (calls : ℕ)
      → EndsOr
          (2 ^ 32 ≤ len + 16)
          (scan_loop answers desc len len input (start desc) calls)
          (IsScan desc)
  scan_loop-EndsOr len input calls =
      scan_loop-EndsOr_from (2 ^ 32 ≤ len + 16) len len input (start desc) calls (omega arith)
        start-IsScan λ (h : 2 ^ 32 ≤ 0 + len + 16). omega (arith, h)
