-- ===== src/Lookup/Descriptors.antt =====
-- The lookups in a descriptor, by the tables that generated code gives it.
use mathlib.Core.Path.{subst}
use protobuf_c.Base.{
  ℕ, ◌<◌, ◌≡◌, sym, arith, Option, none, some, List, get_elem?, length, ap, ◌∙◌, inl, inr,
  Option-cases, get_elem?-lt,
}
use protobuf_c.Message.{MessageDescriptor}
use protobuf_c.Lookup.{
  ◌>>=◌, Run, done, out_of_bounds, out_of_fuel, search_names, name_through, map_index, element,
  ServiceDescriptor, message_descriptor_get_field_by_name, service_descriptor_get_method_by_name,
}
use protobuf_c.Lookup.Search.{Returns}
use protobuf_c.Lookup.Names.{IsSortedNames, Named, search_names-Named}

pub some_inj {ℓ} : {A : Type ℓ} {a b : A} → some a ≡ some b → a ≡ b
some_inj e = cc

pub none-ne-some {ℓ} : {A : Type ℓ} {a : A} → none ≡ some a → ⊥
none-ne-some e = cc

module _ {A : Type 0} (P : A → Type 0) (table : List A) where
  -- An element of the table with the property, or none has it.
  abbrev pub Picks : Option A → Type 0
  Picks (some a) = (j : ℕ) × (get_elem? table j ≡ some a) × P a
  Picks none = (j : ℕ) (a : A) → get_elem? table j ≡ some a → ¬ (P a)

module _ {A : Type 0} (name : A → List ℕ) (table : List A) (order : List ℕ) where
  -- `order` lists every element of the table, by name.
  pub record IsNameIndex : Type 0 where
    pub sorted : IsSortedNames (name_through name table order) (length table)
    pub complete :
        (j : ℕ) → j < length table → (i : ℕ) × (i < length table) × (get_elem? order i ≡ some j)

  abbrev lookup : List ℕ → Run (Option A)
  lookup key = search_names (name_through name table order) (length table) key >>= λ found.
      map_index (λ j. j) order found >>= λ index. element table index

  abbrev fetch : Option ℕ → Run (Option A)
  fetch found = map_index (λ j. j) order found >>= λ index. element table index

  name_at :
      (i j : ℕ) (a : A)
      → get_elem? order i ≡ some j
      → get_elem? table j ≡ some a
      → name_through name table order i ≡ some (name a)
  name_at i j a p q = ground arith

  fetch_at :
      (i j : ℕ) (a : A)
      → get_elem? order i ≡ some j
      → get_elem? table j ≡ some a
      → fetch (some i) ≡ done (some a)
  fetch_at i j a p q = ground arith

  -- The element that an entry of the order stands for.
  through_some :
      (i : ℕ) (key : List ℕ)
      → name_through name table order i ≡ some key
      → (j : ℕ) × (a : A) × (get_elem? table j ≡ some a)
        × (name a ≡ key)
        × (fetch (some i) ≡ done (some a))
  through_some i key e = elim (Option-cases (get_elem? order i)) [
    | inl p ↦ absurd (none-ne-some (rw (p, name_through) at e))
    | inr (j, p) ↦ elim (Option-cases (get_elem? table j)) [
      | inl q ↦ absurd (none-ne-some (rw (p, name_through, q) at e))
      | inr (a, q) ↦ (j, a, q, some_inj (sym (name_at i j a p q) ∙ e), fetch_at i j a p q)
    ]
  ]

  from_search :
      (key : List ℕ) (r : Run (Option ℕ))
      → IsNameIndex
      → Returns r (Named (name_through name table order) (length table) key)
      → Returns (r >>= fetch) (Picks (λ a. name a ≡ key) table)
  from_search key (done (some i)) ok (hi, e) =
      let (j, a, ea, en, ef) = through_some i key e in
      subst (λ r. Returns r (Picks (λ a. name a ≡ key) table)) (sym ef) (j, ea, en)
  from_search key (done none) ok h = λ j a ea en.
      let (i, hi, ei) = ok.complete j (get_elem?-lt table j a ea) in
      h i hi (name_at i j a ei ea ∙ ap some en)
  from_search key out_of_bounds ok h = h
  from_search key out_of_fuel ok h = h

-- With an index by name, the lookup of a field returns, and gives a field of that name where the
-- message has one, and NULL where it has none.
pub get_field_by_name-Picks :
    (desc : MessageDescriptor) (key : List ℕ)
    → IsNameIndex (λ f. f.name) desc.fields desc.fields_sorted_by_name
    → Returns
        (message_descriptor_get_field_by_name desc key)
        (Picks (λ f. f.name ≡ key) desc.fields)
unfolding message_descriptor_get_field_by_name
get_field_by_name-Picks desc key ok =
    from_search _ desc.fields desc.fields_sorted_by_name key _ ok
      (search_names-Named _ (length desc.fields) key ok.sorted)

-- With an index by name, the lookup of a method returns, and gives a method of that name where the
-- service has one, and NULL where it has none.
pub get_method_by_name-Picks :
    (desc : ServiceDescriptor) (key : List ℕ)
    → IsNameIndex (λ m. m.name) desc.methods desc.method_indices_by_name
    → Returns
        (service_descriptor_get_method_by_name desc key)
        (Picks (λ m. m.name ≡ key) desc.methods)
unfolding service_descriptor_get_method_by_name
get_method_by_name-Picks desc key ok =
    from_search _ desc.methods desc.method_indices_by_name key _ ok
      (search_names-Named _ (length desc.methods) key ok.sorted)
