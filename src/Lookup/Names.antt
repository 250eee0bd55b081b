-- ===== src/Lookup/Names.antt =====
-- The lookups by name on tables that are sorted by name.

use native.Mathlib.Decide.{dec_lt}
use protobuf_c.Base.{ℕ, ◌<◌, ◌≤◌, ◌≡◌, ◌≢◌, refl, sym, arith, Option, none, some, List, ap, ◌∙◌}
use protobuf_c.Lookup.{
  Run, done, out_of_bounds, out_of_fuel, Probe, before, after, fault, compare_name, probe_name,
  search_names,
}
use protobuf_c.Lookup.Order.{
  compare_name-flip, compare_name-unflip, compare_name_trans, compare_name_eq, compare_name_refl,
  compare_name-ne-fault,
}
use protobuf_c.Lookup.Search.{Returns, InOrder, Finds, search-Finds}

-- The first `n` entries have names, and each name stands before those of the later entries.
pub record IsSortedNames (name_of : ℕ → Option (List ℕ)) (n : ℕ) : Type 0 where
  pub named : (i : ℕ) → i < n → (name : List ℕ) × (name_of i ≡ some name)
  pub ascending :
      (i j : ℕ) (a b : List ℕ)
      → i < j
      → j < n
      → name_of i ≡ some a
      → name_of j ≡ some b
      → compare_name a b ≡ after

-- The entry that is found bears the name, or no entry does.
abbrev pub Named : (ℕ → Option (List ℕ)) → ℕ → List ℕ → Option ℕ → Type 0
Named name_of n key (some i) = (i < n) × (name_of i ≡ some key)
Named name_of n key none = (i : ℕ) → i < n → name_of i ≢ some key

module _ (name_of : ℕ → Option (List ℕ)) (n : ℕ) (ok : IsSortedNames name_of n) (key : List ℕ) where
  abbrev probe : ℕ → Probe
  probe i = probe_name key (name_of i)

  probe_lem : (i : ℕ) (name : List ℕ) → name_of i ≡ some name → probe i ≡ compare_name name key
  unfolding probe_name
  probe_lem i name e = rw e refl

  -- The names of two entries, the first no later than the second.
  probe-later : (i j : ℕ) → probe i ≡ before → i ≤ j → j < n → probe j ≡ before
  probe-later i j e h within = elim (dec_lt i j) [
    | no p ↦ let same : j ≡ i = omega arith in rw same e
    | yes p ↦
        let (a, ea) = ok.named i (omega arith) in
        let (b, eb) = ok.named j within in
        let key_first = compare_name-flip a key (sym (probe_lem i a ea) ∙ e) in
        probe_lem j b eb
        ∙ compare_name-unflip key b
            (compare_name_trans key a b key_first (ok.ascending i j a b p within ea eb))
  ]

  probe-earlier : (i j : ℕ) → probe j ≡ after → i ≤ j → j < n → probe i ≡ after
  probe-earlier i j e h within = elim (dec_lt i j) [
    | no p ↦ let same : i ≡ j = omega arith in rw same e
    | yes p ↦
        let (a, ea) = ok.named i (omega arith) in
        let (b, eb) = ok.named j within in
        probe_lem i a ea
        ∙ compare_name_trans a b key (ok.ascending i j a b p within ea eb)
            (sym (probe_lem j b eb) ∙ e)
  ]

  probe-readable : (i : ℕ) → i < n → probe i ≢ fault
  probe-readable i h e =
      let (a, ea) = ok.named i h in compare_name-ne-fault a key (sym (probe_lem i a ea) ∙ e)

  names-InOrder : InOrder probe n
  names-InOrder = record { readable = probe-readable; later = probe-later; earlier = probe-earlier }

  from_search : (r : Run (Option ℕ)) → Returns r (Finds probe 0 n) → Returns r (Named name_of n key)
  from_search (done (some i)) (lo, hi, e) =
      let (a, ea) = ok.named i hi in
      (hi, ea ∙ ap some (compare_name_eq a key (sym (probe_lem i a ea) ∙ e)))
  from_search (done none) h =
      λ i hi e. h i (omega arith) hi (probe_lem i key e ∙ compare_name_refl key)
  from_search out_of_bounds h = h
  from_search out_of_fuel h = h

-- The search by name returns, and finds the entry of that name where there is one.
pub search_names-Named :
    (name_of : ℕ → Option (List ℕ)) (n : ℕ) (key : List ℕ)
    → IsSortedNames name_of n
    → Returns (search_names name_of n key) (Named name_of n key)
unfolding search_names
search_names-Named name_of n key ok =
    from_search name_of n ok key _ (search-Finds _ n (names-InOrder name_of n ok key))
