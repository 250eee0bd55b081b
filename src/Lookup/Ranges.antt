-- ===== src/Lookup/Ranges.antt =====
-- `int_range_lookup` on a table of ranges that lie apart, in ascending order.
use mathlib.Core.Path.{subst}
use protobuf_c.Base.{
  ap, ℕ, suc, ◌+◌, ◌-◌, ◌^◌, ◌<◌, ◌≤◌, ◌≡◌, ◌↔◌, refl, sym, arith, ltb, leb, Option, none, some,
  if◌then◌else◌, List, get_elem?, get_or, get_elem?-eq-get_or, length, IsU32, u32,
}
use protobuf_c.Message.{IntRange}
use native.Mathlib.Decide.{dec_lt}
use protobuf_c.Lookup.{
  ◌>>=◌, Run, done, out_of_bounds, out_of_fuel, Probe, before, at, after, search_loop, bias,
  probe_range, index_in_range, int_range_lookup,
}
use protobuf_c.Lookup.Search.{Returns, InOrder, Finds, search-Finds}

abbrev pub no_range : IntRange
no_range = record { start_value = 0; orig_index = 0 }

-- A range of the table: its first value as a number ordered as an `int` is, its index and its size.
abbrev pub first : List IntRange → ℕ → ℕ
first ranges i = bias (get_or ranges i no_range).start_value

abbrev pub index_at : List IntRange → ℕ → ℕ
index_at ranges i = (get_or ranges i no_range).orig_index

abbrev pub size : List IntRange → ℕ → ℕ
size ranges i = index_at ranges (i + 1) - index_at ranges i

-- The ranges of a table of `n`, with the dummy element behind them. An index is an `int`, and so is
-- the value behind each range.
pub record IsValidRanges (n : ℕ) (ranges : List IntRange) : Type 0 where
  pub counted : length ranges ≡ n + 1
  pub value_fits : (i : ℕ) → i ≤ n → IsU32 (get_or ranges i no_range).start_value
  pub index_fits : (i : ℕ) → i ≤ n → index_at ranges i < 2 ^ 31
  pub ascending : (i : ℕ) → i < n → index_at ranges i ≤ index_at ranges (i + 1)
  pub end_fits : (i : ℕ) → i < n → first ranges i + size ranges i < 2 ^ 32
  pub apart : (i j : ℕ) → i < j → j < n → first ranges i + size ranges i ≤ first ranges j

abbrev pub InRange : List IntRange → ℕ → ℕ → Type 0
InRange ranges i value =
    (first ranges i ≤ bias value) × (bias value < first ranges i + size ranges i)

-- The index that belongs to the value, by the range that holds it; or no range holds it.
abbrev pub Locates : ℕ → List IntRange → ℕ → Option ℕ → Type 0
Locates n ranges value (some k) =
    (i : ℕ) × (i < n)
    × InRange ranges i value
    × (k ≡ index_at ranges i + (bias value - first ranges i))
Locates n ranges value none = (i : ℕ) → i < n → ¬ (InRange ranges i value)

-- The value behind a range.
range_end :
    (s o o' : ℕ)
    → IsU32 s
    → o ≤ o'
    → o' < 2 ^ 31
    → bias s + (o' - o) < 2 ^ 32
    → bias (u32 (s + u32 (o' + 2 ^ 32 - o))) ≡ bias s + (o' - o)
range_end s o o' hs up fits room = omega arith

index_of_value :
    (value s o : ℕ)
    → IsU32 value
    → IsU32 s
    → bias s ≤ bias value
    → o + (bias value - bias s) < 2 ^ 32
    → u32 (value + 2 ^ 32 - s + o) ≡ o + (bias value - bias s)
index_of_value value s o hv hs above fits = omega arith

module _ (n : ℕ) (ranges : List IntRange) (ok : IsValidRanges n ranges) (value : ℕ) where
  abbrev probe : ℕ → Probe
  probe i = probe_range value (get_elem? ranges i) (get_elem? ranges (i + 1))

  -- The probe, by the numbers of the range.
  probe_lem :
      (i : ℕ)
      → i < n
      → probe i ≡ (
          if ltb (bias value) (first ranges i)
          then before
          else if leb (first ranges i + size ranges i) (bias value)
          then after
          else at)
  probe_lem i h =
      rw
        (
          get_elem?-eq-get_or ranges i no_range (omega (arith, ok.counted)),
          get_elem?-eq-get_or ranges (i + 1) no_range (omega (arith, ok.counted)),
          range_end (get_or ranges i no_range).start_value (index_at ranges i)
              (index_at ranges (i + 1)) (ok.value_fits i (omega arith)) (ok.ascending i h)
              (ok.index_fits (i + 1) (omega arith)) (ok.end_fits i h),
        )
        refl

  starts_ascend : (i j : ℕ) → i ≤ j → j < n → first ranges i ≤ first ranges j
  starts_ascend i j h within = elim (dec_lt i j) [
    | yes p ↦ omega (arith, ok.apart i j p within)
    | no p ↦ let e : i ≡ j = omega arith in rw e (omega arith)
  ]

  ends_ascend :
      (i j : ℕ) → i ≤ j → j < n → first ranges i + size ranges i ≤ first ranges j + size ranges j
  ends_ascend i j h within = elim (dec_lt i j) [
    | yes p ↦ omega (arith, ok.apart i j p within)
    | no p ↦ let e : i ≡ j = omega arith in rw e (omega arith)
  ]

  probe-InOrder : InOrder probe n
  probe-InOrder = record {
    readable = λ i h. ground (arith, probe_lem i h);
    later = λ i j e h within.
        ground (arith, probe_lem i, probe_lem j within, starts_ascend i j h within);
    earlier =
        λ i j e h within. ground (arith, probe_lem i, probe_lem j within, ends_ascend i j h within);
  }

  found-InRange : (i : ℕ) → i < n → (probe i ≡ at) ↔ InRange ranges i value
  found-InRange i h = (
    (λ e. ground (arith, probe_lem i h)),
    (λ (within : InRange ranges i value). ground (arith, probe_lem i h)),
  )

  -- The index of the range that the search found.
  index_lem :
      (i : ℕ)
      → i < n
      → IsU32 value
      → InRange ranges i value
      → index_in_range value (get_elem? ranges i)
        ≡ done (some (index_at ranges i + (bias value - first ranges i)))
  index_lem i h fits (above, below) =
      rw (get_elem?-eq-get_or ranges i no_range (omega (arith, ok.counted))) (
        ap (λ (k : ℕ). done (some k))
          (index_of_value value (get_or ranges i no_range).start_value (index_at ranges i) fits
            (ok.value_fits i (omega arith)) above (omega (arith, ok.index_fits i (omega arith)))))

  abbrev Located : Run (Option ℕ) → Type 0
  Located r = Returns r (Locates n ranges value)

  abbrev finish : Option ℕ → Run (Option ℕ)
  finish found = elim found [
    | none ↦ done none
    | some i ↦ index_in_range value (get_elem? ranges i)
  ]

  from_search :
      (r : Run (Option ℕ)) → IsU32 value → Returns r (Finds probe 0 n) → Located (r >>= finish)
  from_search (done (some i)) fits (lo, hi, e) =
      let within = (found-InRange i hi).0 e in
      subst Located (sym (index_lem i hi fits within)) (i, hi, within, refl)
  from_search (done none) fits h =
      λ i hi within. h i (omega arith) hi ((found-InRange i hi).1 within)
  from_search out_of_bounds fits h = h
  from_search out_of_fuel fits h = h

-- On a valid table `int_range_lookup` returns, and reads nothing past the table; it gives the index
-- that belongs to the value where a range holds the value, and -1 where no range does.
pub int_range_lookup-Locates :
    (n : ℕ) (ranges : List IntRange) (value : ℕ)
    → IsValidRanges n ranges
    → IsU32 value
    → Returns (int_range_lookup n ranges value) (Locates n ranges value)
unfolding int_range_lookup
int_range_lookup-Locates n ranges value ok fits =
    from_search n ranges ok value (search_loop (probe n ranges ok value) (suc n) 0 n) fits
      (search-Finds (probe n ranges ok value) n (probe-InOrder n ranges ok value))
