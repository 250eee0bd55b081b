-- ===== src/Unpack/Loop.antt =====
-- The first phase of `protobuf_c_message_unpack`, src/google/protobuf-c/protobuf-c.c: the loop that
-- scans the members, marks the required fields and counts the elements of the arrays.
pub mod Ends
pub mod Tally
pub mod Steps
pub mod Invariant
pub mod Rounds
use mathlib.Core.Option
use protobuf_c.Base.{
  ℕ, zero, suc, ◌+◌, ◌-◌, ◌/◌, ◌%◌, ◌^◌, u64, is_negative32, ◌==◌, ltb, if◌then◌else◌, List, [],
  ◌∷◌, ◌++◌, Bool, true, false, ◌&&◌, ◌||◌, Option, none, some, get_elem?,
}
use protobuf_c.Memory.Input.{Input, advance}
use protobuf_c.Message.{required, optional, repeated, FieldDescriptor, MessageDescriptor}
use protobuf_c.Scalar.Parse.{parse_tag_and_wiretype}
use protobuf_c.Lookup.{Run, done, int_range_lookup}
use protobuf_c.Lookup
use protobuf_c.Unpack.Scan.{count_packed_elements}
use protobuf_c.Unpack.Member.{scan_member}
use protobuf_c.Unpack.Outcome.{Outcome, out_of_fuel, Action, ◌>>=◌, ◌>>◌, pure, fail, fault, alloc}
use protobuf_c.Unpack.Value.{ScannedMember}
use protobuf_c.Unpack.Fields.{is_packed_member, packed_len, packed_input}

-- A field's place in the descriptor, with the field.
abbrev pub FieldAt : Type 0
FieldAt = ℕ × FieldDescriptor

-- `required_fields_bitmap`, 16 bytes of 8 bits.
abbrev pub Bitmap : Type 0
Bitmap = ℕ → ℕ → Bool

abbrev pub bitmap_set : Bitmap → ℕ → Bitmap
bitmap_set bitmap index byte bit = (byte == index / 8 % 16 && bit == index % 8) || bitmap byte bit

abbrev pub bitmap_is_set : Bitmap → ℕ → Bool
bitmap_is_set bitmap index = bitmap (index / 8 % 16) (index % 8)

-- The variables of the loop. `last_field` stands with `last_field_index`, `members` is what the slabs
-- hold, one after another, and `counts` has the quantifiers of the new message.
pub record Scan : Type 0 where
  pub last_field : Option FieldAt
  pub bitmap : Bitmap
  pub counts : ℕ → ℕ
  pub n_unknown : ℕ
  pub which_slab : ℕ
  pub in_slab_index : ℕ
  pub members : List ScannedMember

-- Initialised: the arrays of the message have no elements, and `fields` is NULL if there are none.
abbrev pub start : MessageDescriptor → Scan
start desc = record {
  last_field = Option.map (λ field. (0, field)) (get_elem? desc.fields 0);
  bitmap = λ byte bit. false;
  counts = λ f. 0;
  n_unknown = 0;
  which_slab = 0;
  in_slab_index = 0;
  members = [];
}

abbrev pub field_at : MessageDescriptor → ℕ → Action (Option FieldAt)
field_at desc i = elim (get_elem? desc.fields i) [
  | none ↦ fault
  | some field ↦ pure (some (i, field))
]

abbrev pub as_field : MessageDescriptor → Run (Option ℕ) → Action (Option FieldAt)
as_field desc (done none) = pure none
as_field desc (done (some i)) = if is_negative32 i then pure none else field_at desc i
as_field desc Lookup.out_of_bounds = fault
as_field desc Lookup.out_of_fuel = λ calls. out_of_fuel

-- `int_range_lookup`, and the field at the index that it gives.
unfoldable pub lookup_field : MessageDescriptor → ℕ → Action (Option FieldAt)
lookup_field desc tag = as_field desc (int_range_lookup desc.n_field_ranges desc.field_ranges tag)

-- The last field where the tag is its number again.
unfoldable pub find_field : MessageDescriptor → Option FieldAt → ℕ → Action (Option FieldAt)
find_field desc none tag = lookup_field desc tag
find_field desc (some (i, field)) tag =
    if field.id == tag then pure (some (i, field)) else lookup_field desc tag

-- `REQUIRED_FIELD_BITMAP_SET (last_field_index)` where the field is required.
abbrev pub mark : FieldAt → Bitmap → Bitmap
mark (i, field) bitmap = elim field.label [
  | required ↦ bitmap_set bitmap i
  | optional ↦ bitmap
  | repeated ↦ bitmap
]

unfoldable pub note_field : Option FieldAt → Scan → Scan
note_field none st = record st { n_unknown = st.n_unknown + 1 }
note_field (some at) st = record st { last_field = some at; bitmap = mark at st.bitmap }

abbrev pub or_fail : {A : Type 0} → Option A → Action A
or_fail none = fail
or_fail (some a) = pure a

-- MAX_SCANNED_MEMBER_SLAB with pointers of 64 bits.
abbrev pub max_slab : ℕ
max_slab = 54

abbrev pub new_slab : (ℕ → ℕ) → Scan → Action Scan
new_slab answers st = do
  slab ← alloc answers
  pure (record st { in_slab_index = 0; which_slab = st.which_slab + 1 })

-- `1U << k`. An `unsigned` has 32 bits, and what the program does on a longer shift is undefined.
abbrev pub shifted_one : ℕ → Action ℕ
shifted_one k = if ltb k 32 then pure (2 ^ k) else fault

-- The slab number `k` has room for `1U << (k + 4)` members; the last one is not exceeded.
abbrev pub slab_of : (ℕ → ℕ) → Scan → ℕ → Action Scan
slab_of answers st size =
    if st.in_slab_index == size
    then if st.which_slab == max_slab then fail else new_slab answers st
    else pure st

unfoldable pub next_slab : (ℕ → ℕ) → Scan → Action Scan
next_slab answers st = do size ← shifted_one (st.which_slab + 4); slab_of answers st size

abbrev pub add_member : ScannedMember → Scan → Scan
add_member m st = record st { in_slab_index = st.in_slab_index + 1; members = st.members ++ m ∷ [] }

-- How many elements a member of a repeated field brings.
unfoldable pub count_elements : FieldDescriptor → ScannedMember → Option ℕ
count_elements field m =
    if is_packed_member field m.wire_type
    then count_packed_elements field.type (packed_len m) (packed_input m)
    else some 1

abbrev pub bump : (ℕ → ℕ) → ℕ → ℕ → ℕ → ℕ
bump counts i n f = if f == i then u64 (counts f + n) else counts f

abbrev pub count_repeated : FieldAt → ScannedMember → Scan → Action Scan
count_repeated (i, field) m st = do
  n ← or_fail (count_elements field m)
  pure (record st { counts = bump st.counts i n })

unfoldable pub count_member : Option FieldAt → ScannedMember → Scan → Action Scan
count_member none m st = pure st
count_member (some (i, field)) m st = elim field.label [
  | required ↦ pure st
  | optional ↦ pure st
  | repeated ↦ count_repeated (i, field) m st
]

-- A member that was scanned is put into a slab and counted.
unfoldable pub keep_member : (ℕ → ℕ) → ScannedMember → Scan → Action Scan
keep_member answers m st = do
  st' ← next_slab answers (note_field m.field st)
  count_member m.field m (add_member m st')

-- One round, once the tag is parsed, with `rem` bytes from `at` on behind it. The result has the length
-- of the member.
unfoldable pub scan_field :
    (ℕ → ℕ) → MessageDescriptor → ℕ → ℕ → ℕ → Input → Scan → Action (ℕ × Scan)
scan_field answers desc tag wire_type rem at st = do
  field ← find_field desc st.last_field tag
  (len, pref_len) ← or_fail (scan_member wire_type rem at)
  let m : ScannedMember = record {
    tag = tag;
    wire_type = wire_type;
    length_prefix_len = pref_len;
    field = field;
    len = len;
    input = at;
  }
  st' ← keep_member answers m st
  pure (len, st')

-- One round. The result has the bytes that it takes.
unfoldable pub scan_round : (ℕ → ℕ) → MessageDescriptor → ℕ → Input → Scan → Action (ℕ × Scan)
scan_round answers desc rem at st = do
  (used, tag, wire_type) ← or_fail (parse_tag_and_wiretype rem at)
  (len, st') ← scan_field answers desc tag wire_type (rem - used) (advance at used) st
  pure (used + len, st')

-- `while (rem > 0)`
unfoldable pub scan_loop : (ℕ → ℕ) → MessageDescriptor → ℕ → ℕ → Input → Scan → Action Scan
scan_loop answers desc zero rem at st = if rem == 0 then pure st else λ calls. out_of_fuel
scan_loop answers desc (suc fuel) rem at st =
    let round : Action Scan = scan_round answers desc rem at st >>= λ r.
    scan_loop answers desc fuel (rem - r.0) (advance at r.0) r.1 in
    if rem == 0 then pure st else round
