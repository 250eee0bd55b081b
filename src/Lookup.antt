-- ===== src/Lookup.antt =====
-- The searches in descriptors: src/google/protobuf-c/protobuf-c.c, `int_range_lookup` and "querying
-- the descriptors". A table is read through a probe, which may run past its end; the loops take fuel.
pub mod Search
pub mod Order
pub mod Names
pub mod Descriptors
pub mod Numbers
pub mod Enums
pub mod Ranges
use protobuf_c.Base.{
  ℕ, zero, suc, ◌+◌, ◌-◌, ◌/◌, ◌^◌, Bool, true, false, ◌&&◌, ltb, leb, ◌==◌, if◌then◌else◌, Option,
  none, some, List, [], ◌∷◌, length, get_elem?, u32, not,
}
use mathlib.Core.Option
use protobuf_c.Message.{IntRange, FieldDescriptor, MessageDescriptor}

-- A result, a read past the end of a table, or no fuel.
pub data Run {ℓ} (A : Type ℓ) : Type ℓ where
  done : A → Run A
  out_of_bounds out_of_fuel : Run A

infixl 5 ◌>>=◌
abbrev pub ◌>>=◌ {ℓ κ} : {A : Type ℓ} {B : Type κ} → Run A → (A → Run B) → Run B
done a >>= f = f a
out_of_bounds >>= f = out_of_bounds
out_of_fuel >>= f = out_of_fuel

-- How the value that is looked for compares with an entry.
pub data Probe : Type 0 where
  before at after fault : Probe

-- `while (n > 1) { mid = start + n / 2; … }`, and the test of the one entry that may be left. The
-- result is the index of the entry, `none` for no entry.
module _ (probe : ℕ → Probe) where
  unfoldable pub last_entry : ℕ → ℕ → Run (Option ℕ)
  last_entry start zero = done none
  last_entry start (suc n) = elim (probe start) [
    | at ↦ done (some start)
    | before ↦ done none
    | after ↦ done none
    | fault ↦ out_of_bounds
  ]

  unfoldable pub search_loop : ℕ → ℕ → ℕ → Run (Option ℕ)
  search_loop zero start n = out_of_fuel
  search_loop (suc fuel) start n =
      let mid = start + n / 2 in
      let round : Run (Option ℕ) = elim (probe mid) [
        | before ↦ search_loop fuel start (mid - start)
        | after ↦ search_loop fuel (mid + 1) (start + n - (mid + 1))
        | at ↦ done (some mid)
        | fault ↦ out_of_bounds
      ] in
      if ltb 1 n then round else last_entry start n

-- An `int` as a number that is ordered as the `int` is, for its bit pattern.
abbrev pub bias : ℕ → ℕ
bias v = u32 (v + 2 ^ 31)

-- `ranges[mid + 1].orig_index - ranges[mid].orig_index`
abbrev pub range_size : IntRange → IntRange → ℕ
range_size r next = u32 (next.orig_index + 2 ^ 32 - r.orig_index)

abbrev pub probe_range : ℕ → Option IntRange → Option IntRange → Probe
probe_range value (some r) (some next) =
    if ltb (bias value) (bias r.start_value)
    then before
    else if leb (bias (u32 (r.start_value + range_size r next))) (bias value)
    then after
    else at
probe_range value none next = fault
probe_range value (some r) none = fault

-- `(value - ranges[i].start_value) + ranges[i].orig_index`
abbrev pub index_in_range : ℕ → Option IntRange → Run (Option ℕ)
index_in_range value (some r) = done (some (u32 (value + 2 ^ 32 - r.start_value + r.orig_index)))
index_in_range value none = out_of_bounds

-- `none` is -1.
unfoldable pub int_range_lookup : ℕ → List IntRange → ℕ → Run (Option ℕ)
int_range_lookup n_ranges ranges value =
    search_loop (λ i. probe_range value (get_elem? ranges i) (get_elem? ranges (i + 1)))
      (suc n_ranges) 0 n_ranges
    >>= λ found. elim found [
      | none ↦ done none
      | some i ↦ index_in_range value (get_elem? ranges i)
    ]

-- `strcmp (name, key)`: where `key` stands.
unfoldable pub compare_name : List ℕ → List ℕ → Probe
compare_name [] [] = at
compare_name [] (k ∷ key) = after
compare_name (c ∷ name) [] = before
compare_name (c ∷ name) (k ∷ key) =
    let rest = compare_name name key in if c == k then rest else if ltb c k then after else before

unfoldable pub probe_name : List ℕ → Option (List ℕ) → Probe
probe_name key none = fault
probe_name key (some name) = compare_name name key

-- The search that the three lookups by name share, over the name of each entry.
unfoldable pub search_names : (ℕ → Option (List ℕ)) → ℕ → List ℕ → Run (Option ℕ)
search_names name_of count key = search_loop (λ i. probe_name key (name_of i)) (suc count) 0 count

-- `base + index`, an element that the caller may read.
abbrev pub element {ℓ} : {A : Type ℓ} → List A → Option ℕ → Run (Option A)
element table none = done none
element table (some i) = elim (get_elem? table i) [ none ↦ out_of_bounds | some a ↦ done (some a) ]

-- `ProtobufCEnumValue`, `ProtobufCEnumValueIndex` and `ProtobufCEnumDescriptor`.
pub record EnumValue : Type 0 where
  pub name : List ℕ
  pub c_name : List ℕ
  pub value : ℕ

pub record EnumValueIndex : Type 0 where
  pub name : List ℕ
  pub index : ℕ

pub record EnumDescriptor : Type 0 where
  pub values : List EnumValue
  pub values_by_name : List EnumValueIndex
  pub n_value_ranges : ℕ
  pub value_ranges : List IntRange

-- `ProtobufCMethodDescriptor` and `ProtobufCServiceDescriptor`.
pub record MethodDescriptor : Type 0 where
  pub name : List ℕ
  pub input : MessageDescriptor
  pub output : MessageDescriptor

pub record ServiceDescriptor : Type 0 where
  pub methods : List MethodDescriptor
  pub method_indices_by_name : List ℕ

-- `values_by_name[i].index`, `fields_sorted_by_name[i]`, `method_indices_by_name[i]`.
abbrev pub map_index {ℓ} : {A : Type ℓ} → (A → ℕ) → List A → Option ℕ → Run (Option ℕ)
map_index f table found = element table found >>= λ a. done (Option.map f a)

unfoldable pub enum_descriptor_get_value_by_name : EnumDescriptor → List ℕ → Run (Option EnumValue)
enum_descriptor_get_value_by_name desc name =
    search_names (λ i. Option.map (λ e. e.name) (get_elem? desc.values_by_name i))
      (length desc.values_by_name) name
    >>= λ found.
        map_index (λ e. e.index) desc.values_by_name found >>= λ index. element desc.values index

unfoldable pub enum_descriptor_get_value : EnumDescriptor → ℕ → Run (Option EnumValue)
enum_descriptor_get_value desc value =
    int_range_lookup desc.n_value_ranges desc.value_ranges value >>= λ rv. element desc.values rv

-- The name of the entry that stands at `i` in the order of names.
abbrev pub name_through {ℓ} : {A : Type ℓ} → (A → List ℕ) → List A → List ℕ → ℕ → Option (List ℕ)
name_through name table order i = elim (get_elem? order i) [
  | none ↦ none
  | some j ↦ Option.map name (get_elem? table j)
]

unfoldable pub message_descriptor_get_field_by_name :
    MessageDescriptor → List ℕ → Run (Option FieldDescriptor)
message_descriptor_get_field_by_name desc name =
    search_names (name_through (λ f. f.name) desc.fields desc.fields_sorted_by_name)
      (length desc.fields) name
    >>= λ found.
        map_index (λ j. j) desc.fields_sorted_by_name found >>= λ index. element desc.fields index

unfoldable pub message_descriptor_get_field : MessageDescriptor → ℕ → Run (Option FieldDescriptor)
message_descriptor_get_field desc value =
    int_range_lookup desc.n_field_ranges desc.field_ranges value >>= λ rv. element desc.fields rv

unfoldable pub service_descriptor_get_method_by_name :
    ServiceDescriptor → List ℕ → Run (Option MethodDescriptor)
service_descriptor_get_method_by_name desc name =
    search_names (name_through (λ m. m.name) desc.methods desc.method_indices_by_name)
      (length desc.methods) name
    >>= λ found.
        map_index (λ j. j) desc.method_indices_by_name found >>= λ index. element desc.methods index
