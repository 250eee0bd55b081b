-- ===== src/Lookup/Numbers.antt =====
-- The lookups by number, on tables that are sorted by number.
use mathlib.Core.Path.{subst}
use protobuf_c.Base.{
  ℕ, ◌+◌, ◌-◌, ◌<◌, ◌≡◌, sym, arith, Option, none, some, List, get_elem?, ap, ◌∙◌, IsU32,
}
use protobuf_c.Message.{MessageDescriptor}
use protobuf_c.Lookup.{
  ◌>>=◌, Run, done, out_of_bounds, out_of_fuel, element, bias, message_descriptor_get_field,
}
use protobuf_c.Lookup.Search.{Returns}
use protobuf_c.Lookup.Ranges.{
  IsValidRanges, InRange, Locates, first, index_at, size, int_range_lookup-Locates,
}
use protobuf_c.Message.{IntRange}
use protobuf_c.Lookup.{EnumDescriptor, enum_descriptor_get_value}
use protobuf_c.Lookup.Descriptors.{Picks}

-- The ranges stand for the numbers of the elements of the table: element by element, in order.
pub record IsNumberIndex {A : Type 0} (number : A → ℕ) (table : List A) (n : ℕ)
    (ranges : List IntRange) : Type 0 where
  pub valid : IsValidRanges n ranges
  pub number_fits : (j : ℕ) (a : A) → get_elem? table j ≡ some a → IsU32 (number a)
  pub listed :
      (i k : ℕ)
      → i < n
      → k < size ranges i
      → (a : A) × (get_elem? table (index_at ranges i + k) ≡ some a)
        × (bias (number a) ≡ first ranges i + k)
  pub complete :
      (j : ℕ) (a : A) → get_elem? table j ≡ some a → (i : ℕ) × (i < n) × InRange ranges i (number a)

bias_inj : (a b : ℕ) → IsU32 a → IsU32 b → bias a ≡ bias b → a ≡ b
bias_inj a b ha hb e = omega arith

pub element_at :
    {A : Type 0} (table : List A) (k : ℕ) (a : A)
    → get_elem? table k ≡ some a
    → element table (some k) ≡ done (some a)
element_at table k a e = ground arith

module _ {A : Type 0} (number : A → ℕ) (table : List A) (n : ℕ) (ranges : List IntRange)
    (ok : IsNumberIndex number table n ranges) (key : ℕ) (fits : IsU32 key) where
  from_ranges :
      (r : Run (Option ℕ))
      → Returns r (Locates n ranges key)
      → Returns (r >>= λ rv. element table rv) (Picks (λ a. number a ≡ key) table)
  from_ranges (done (some k)) (i, hi, (above, below), e) =
      let (a, ea, eb) = ok.listed i (bias key - first ranges i) hi (omega arith) in
      let found = ap (get_elem? table) e ∙ ea in
      let same = bias_inj (number a) key (ok.number_fits _ a ea) fits (omega arith) in
      subst (λ r. Returns r (Picks (λ a. number a ≡ key) table)) (sym (element_at table k a found))
        (k, found, same)
  from_ranges (done none) h = λ j a ea e.
      let (i, hi, within) = ok.complete j a ea in h i hi (subst (InRange ranges i) e within)
  from_ranges out_of_bounds h = h
  from_ranges out_of_fuel h = h

-- With an index by number, the lookup of a field by a 32-bit number returns, and gives the field of
-- that number where the message has one, and NULL where it has none.
pub get_field-Picks :
    (desc : MessageDescriptor) (tag : ℕ)
    → IsNumberIndex (λ f. f.id) desc.fields desc.n_field_ranges desc.field_ranges
    → IsU32 tag
    → Returns (message_descriptor_get_field desc tag) (Picks (λ f. f.id ≡ tag) desc.fields)
unfolding message_descriptor_get_field
get_field-Picks desc tag ok fits =
    from_ranges _ desc.fields desc.n_field_ranges desc.field_ranges ok tag fits _
      (int_range_lookup-Locates desc.n_field_ranges desc.field_ranges tag ok.valid fits)

-- With an index by number, the lookup of an enumeration's value returns for every 32-bit pattern,
-- and gives the value of that number where there is one, and NULL where there is none.
pub get_value-Picks :
    (desc : EnumDescriptor) (number : ℕ)
    → IsNumberIndex (λ v. v.value) desc.values desc.n_value_ranges desc.value_ranges
    → IsU32 number
    → Returns (enum_descriptor_get_value desc number) (Picks (λ v. v.value ≡ number) desc.values)
unfolding enum_descriptor_get_value
get_value-Picks desc number ok fits =
    from_ranges _ desc.values desc.n_value_ranges desc.value_ranges ok number fits _
      (int_range_lookup-Locates desc.n_value_ranges desc.value_ranges number ok.valid fits)
