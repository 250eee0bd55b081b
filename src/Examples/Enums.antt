-- ===== src/Examples/Enums.antt =====
-- The lookups in an enumeration of two values.
use mathlib.Core.Path.{subst}
use protobuf_c.Base.{
  ℕ, zero, suc, ◌+◌, ◌<◌, ◌≡◌, refl, arith, some, List, [], ◌∷◌, get_elem?, IsU32,
}
use protobuf_c.Lookup.{bias, after, compare_name}
use protobuf_c.Lookup.Search.{Returns}
use protobuf_c.Lookup.Ranges.{InRange, first, size, index_at}
use protobuf_c.Lookup.{
  EnumDescriptor, EnumValue, EnumValueIndex, enum_descriptor_get_value,
  enum_descriptor_get_value_by_name,
}
use protobuf_c.Lookup.Numbers.{IsNumberIndex, get_value-Picks}
use protobuf_c.Lookup.Enums.{entry_name, IsValueIndex, Denotes, get_value_by_name-Denotes}
use protobuf_c.Lookup.Descriptors.{Picks, some_inj}
use protobuf_c.Examples.Tables.{below_two, below_pair, field_ranges, field_ranges-IsValid}

-- Two values with the numbers 1 and 3.
abbrev low : EnumValue
low = record { name = b'l' ∷ []; c_name = b'L' ∷ []; value = 1 }

abbrev high : EnumValue
high = record { name = b'h' ∷ []; c_name = b'H' ∷ []; value = 3 }

abbrev two_values : EnumDescriptor
two_values = record {
  values = low ∷ high ∷ [];
  values_by_name =
      record { name = b'h' ∷ []; index = 1 } ∷ record { name = b'l' ∷ []; index = 0 } ∷ [];
  n_value_ranges = 2;
  value_ranges = field_ranges;
}

each_value :
    (P : ℕ → EnumValue → Type 0)
    → P 0 low
    → P 1 high
    → (j : ℕ) (v : EnumValue) → get_elem? two_values.values j ≡ some v
    → P j v
each_value P p q zero v e = subst (P 0) (some_inj e) p
each_value P p q (suc zero) v e = subst (P 1) (some_inj e) q
each_value P p q (suc (suc j)) v e = cc

listed_value :
    (i k : ℕ)
    → i < 2
    → k < size field_ranges i
    → (v : EnumValue) × (get_elem? two_values.values (index_at field_ranges i + k) ≡ some v)
      × (bias v.value ≡ first field_ranges i + k)
listed_value zero zero h below = (low, refl, omega arith)
listed_value zero (suc k) h below = absurd (omega arith)
listed_value (suc zero) zero h below = (high, refl, omega arith)
listed_value (suc zero) (suc k) h below = absurd (omega arith)
listed_value (suc (suc i)) k h below = absurd (omega arith)

two_values-IsNumberIndex :
    IsNumberIndex (λ (v : EnumValue). v.value) two_values.values 2 field_ranges
two_values-IsNumberIndex = record {
  valid = field_ranges-IsValid;
  number_fits = each_value (λ j v. IsU32 v.value) (omega arith) (omega arith);
  listed = listed_value;
  complete =
      each_value (λ j v. (i : ℕ) × (i < 2) × InRange field_ranges i v.value)
        (0, omega arith, (omega arith, omega arith)) (1, omega arith, (omega arith, omega arith));
}

get_value-Picks_example :
    Returns (enum_descriptor_get_value two_values 2) (Picks (λ v. v.value ≡ 2) two_values.values)
get_value-Picks_example = get_value-Picks two_values 2 two_values-IsNumberIndex (omega arith)

entry_leads :
    (i : ℕ) (e : EnumValueIndex)
    → get_elem? two_values.values_by_name i ≡ some e
    → (v : EnumValue) × (get_elem? two_values.values e.index ≡ some v)
entry_leads zero e p =
    subst (λ (e : EnumValueIndex). (v : EnumValue) × (get_elem? two_values.values e.index ≡ some v))
      (some_inj p) (high, refl)
entry_leads (suc zero) e p =
    subst (λ (e : EnumValueIndex). (v : EnumValue) × (get_elem? two_values.values e.index ≡ some v))
      (some_inj p) (low, refl)
entry_leads (suc (suc i)) e p = cc

entries_ascend :
    (i j : ℕ) (a b : List ℕ)
    → i < j
    → j < 2
    → entry_name two_values i ≡ some a
    → entry_name two_values j ≡ some b
    → compare_name a b ≡ after
entries_ascend i j a b h k =
    below_pair
      (λ i j.
        entry_name two_values i ≡ some a
        → entry_name two_values j ≡ some b
        → compare_name a b ≡ after)
      (λ p q.
        subst (λ a. compare_name a b ≡ after) (some_inj p)
          (subst (λ b. compare_name (b'h' ∷ []) b ≡ after) (some_inj q)
            (unfold compare_name in refl)))
      i j h k

two_values-IsValueIndex : IsValueIndex two_values
two_values-IsValueIndex = record {
  sorted = record {
    named =
        below_two (λ i. (name : List ℕ) × (entry_name two_values i ≡ some name)) (b'h' ∷ [], refl)
          (b'l' ∷ [], refl);
    ascending = entries_ascend;
  };
  leads = entry_leads;
}

get_value_by_name-Denotes_example :
    Returns
      (enum_descriptor_get_value_by_name two_values (b'l' ∷ []))
      (Denotes two_values (b'l' ∷ []))
get_value_by_name-Denotes_example =
    get_value_by_name-Denotes two_values (b'l' ∷ []) two_values-IsValueIndex
