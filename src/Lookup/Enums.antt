-- ===== src/Lookup/Enums.antt =====
-- The lookup of an enumeration's value by name. Names may be aliases: each entry names an index.
use mathlib.Core.Path.{subst}
use mathlib.Core.Option
use protobuf_c.Base.{
  ◌≢◌, ℕ, ◌≡◌, sym, arith, Option, none, some, List, get_elem?, length, ap, ◌∙◌, inl, inr,
  Option-cases, get_elem?-lt,
}
use protobuf_c.Lookup.{◌>>=◌, Run, done, out_of_bounds, out_of_fuel, map_index, element}
use protobuf_c.Lookup.Search.{Returns}
use protobuf_c.Lookup.Names.{IsSortedNames, Named, search_names-Named}
use protobuf_c.Lookup.{EnumDescriptor, EnumValue, EnumValueIndex, enum_descriptor_get_value_by_name}
use protobuf_c.Lookup.Descriptors.{some_inj, none-ne-some}

-- The name of an entry.
abbrev pub entry_name : EnumDescriptor → ℕ → Option (List ℕ)
entry_name desc i = Option.map (λ e. e.name) (get_elem? desc.values_by_name i)

-- The entries are sorted by name, and lead to values.
pub record IsValueIndex (desc : EnumDescriptor) : Type 0 where
  pub sorted : IsSortedNames (entry_name desc) (length desc.values_by_name)
  pub leads :
      (i : ℕ) (e : EnumValueIndex)
      → get_elem? desc.values_by_name i ≡ some e
      → (v : EnumValue) × (get_elem? desc.values e.index ≡ some v)

-- The value that an entry of the name leads to, or no entry has the name.
abbrev pub Denotes : EnumDescriptor → List ℕ → Option EnumValue → Type 0
Denotes desc key (some v) =
    (i : ℕ) × (e : EnumValueIndex) × (get_elem? desc.values_by_name i ≡ some e)
    × (e.name ≡ key)
    × (get_elem? desc.values e.index ≡ some v)
Denotes desc key none =
    (i : ℕ) (e : EnumValueIndex) → get_elem? desc.values_by_name i ≡ some e → e.name ≢ key

module _ (desc : EnumDescriptor) where
  abbrev fetch : Option ℕ → Run (Option EnumValue)
  fetch found =
      map_index (λ e. e.index) desc.values_by_name found >>= λ index. element desc.values index

  fetch_at :
      (i : ℕ) (e : EnumValueIndex) (v : EnumValue)
      → get_elem? desc.values_by_name i ≡ some e
      → get_elem? desc.values e.index ≡ some v
      → fetch (some i) ≡ done (some v)
  fetch_at i e v p q = ground arith

  name_at :
      (i : ℕ) (e : EnumValueIndex)
      → get_elem? desc.values_by_name i ≡ some e
      → entry_name desc i ≡ some e.name
  name_at i e p = ground arith

  name-inv :
      (i : ℕ) (key : List ℕ)
      → entry_name desc i ≡ some key
      → (e : EnumValueIndex) × (get_elem? desc.values_by_name i ≡ some e) × (e.name ≡ key)
  name-inv i key h = elim (Option-cases (get_elem? desc.values_by_name i)) [
    | inl p ↦ absurd (none-ne-some (rw (p, entry_name) at h))
    | inr (e, p) ↦ (e, p, some_inj (sym (name_at i e p) ∙ h))
  ]

  from_search :
      (key : List ℕ) (r : Run (Option ℕ))
      → IsValueIndex desc
      → Returns r (Named (entry_name desc) (length desc.values_by_name) key)
      → Returns (r >>= fetch) (Denotes desc key)
  from_search key (done (some i)) ok (hi, h) =
      let (e, p, same) = name-inv i key h in
      let (v, q) = ok.leads i e p in
      subst (λ r. Returns r (Denotes desc key)) (sym (fetch_at i e v p q)) (i, e, p, same, q)
  from_search key (done none) ok h =
      λ i e p same. h i (get_elem?-lt desc.values_by_name i e p) (name_at i e p ∙ ap some same)
  from_search key out_of_bounds ok h = h
  from_search key out_of_fuel ok h = h

-- With an index by name, the lookup of an enumeration's value returns, and gives the value that the
-- entry of that name leads to where there is such an entry, and NULL where there is none.
pub get_value_by_name-Denotes :
    (desc : EnumDescriptor) (key : List ℕ)
    → IsValueIndex desc
    → Returns (enum_descriptor_get_value_by_name desc key) (Denotes desc key)
unfolding enum_descriptor_get_value_by_name
get_value_by_name-Denotes desc key ok =
    from_search desc key _ ok (search_names-Named _ (length desc.values_by_name) key ok.sorted)
