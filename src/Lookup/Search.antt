-- ===== src/Lookup/Search.antt =====
-- The binary search is total, and right on a probe that is in order.
use protobuf_c.Base.{
  sym, inl, inr, ◌⊎◌, ℕ, zero, suc, ◌+◌, ◌-◌, ◌/◌, ◌<◌, ◌≤◌, ◌≡◌, ◌≢◌, refl, arith, Option, none,
  some,
}
use mathlib.Core.Path.{subst}
use native.Mathlib.Decide.{dec_lt}
use protobuf_c.Lookup.{
  Run, done, out_of_bounds, out_of_fuel, Probe, before, at, after, fault, last_entry, search_loop,
}

-- The run ends normally, with a result that satisfies `P`.
abbrev pub Returns {ℓ} : {A : Type ℓ} → Run A → (A → Type 0) → Type 0
Returns (done a) P = P a
Returns out_of_bounds P = ⊥
Returns out_of_fuel P = ⊥

-- No entry of the first `n` is past the table, and what lies before an entry lies before the later
-- ones, what lies after it after the earlier ones.
pub record InOrder (probe : ℕ → Probe) (n : ℕ) : Type 0 where
  pub readable : (i : ℕ) → i < n → probe i ≢ fault
  pub later : (i j : ℕ) → probe i ≡ before → i ≤ j → j < n → probe j ≡ before
  pub earlier : (i j : ℕ) → probe j ≡ after → i ≤ j → j < n → probe i ≡ after

-- An entry at which the value stands, or none of those from `start` to `stop` is one.
abbrev pub Finds : (ℕ → Probe) → ℕ → ℕ → Option ℕ → Type 0
Finds probe start stop (some i) = (start ≤ i) × (i < stop) × (probe i ≡ at)
Finds probe start stop none = (i : ℕ) → start ≤ i → i < stop → probe i ≢ at

-- What a search of a part finds is found in the whole, where the rest holds no entry.
widen :
    (probe : ℕ → Probe) (lo hi start stop : ℕ)
    → start ≤ lo
    → hi ≤ stop
    → ((i : ℕ) → start ≤ i → i < lo → probe i ≢ at)
    → ((i : ℕ) → hi ≤ i → i < stop → probe i ≢ at)
    → (r : Run (Option ℕ)) → Returns r (Finds probe lo hi)
    → Returns r (Finds probe start stop)
widen probe lo hi start stop below above front back (done (some i)) h =
    let (from, to, found) = h in (omega arith, omega arith, found)
widen probe lo hi start stop below above front back (done none) h = λ i from to.
    elim (dec_lt i lo) [
      | yes p ↦ front i from p
      | no p ↦ elim (dec_lt i hi) [ yes q ↦ h i (omega arith) q | no q ↦ back i (omega arith) to ]
    ]
widen probe lo hi start stop below above front back out_of_bounds h = h
widen probe lo hi start stop below above front back out_of_fuel h = h

before-ne-at : (p : Probe) → p ≡ before → p ≢ at
before-ne-at p h e = cc

after-ne-at : (p : Probe) → p ≡ after → p ≢ at
after-ne-at p h e = cc

-- The steps of the search, by what the probe says.
module _ (probe : ℕ → Probe) (fuel start n : ℕ) (many : 1 < n) where
  step_before :
      probe (start + n / 2) ≡ before
      → search_loop probe (suc fuel) start n ≡ search_loop probe fuel start (n / 2)
  unfolding search_loop
  step_before e = ground arith

  step_after :
      probe (start + n / 2) ≡ after
      → search_loop probe (suc fuel) start n
        ≡ search_loop probe fuel (start + n / 2 + 1) (n - n / 2 - 1)
  unfolding search_loop
  step_after e = ground arith

  step_at :
      probe (start + n / 2) ≡ at
      → search_loop probe (suc fuel) start n ≡ done (some (start + n / 2))
  unfolding search_loop
  step_at e = ground arith

-- The one entry that is left.
module _ (probe : ℕ → Probe) (fuel start : ℕ) where
  last_at : probe start ≡ at → search_loop probe (suc fuel) start 1 ≡ done (some start)
  unfolding search_loop last_entry
  last_at e = ground arith

  last_other :
      probe start ≢ fault → probe start ≢ at → search_loop probe (suc fuel) start 1 ≡ done none
  unfolding search_loop last_entry
  last_other readable other = ground arith

abbrev ProbeCases : (p : Probe) → Type 0
ProbeCases p = (p ≡ before) ⊎ (p ≡ at) ⊎ (p ≡ after) ⊎ (p ≡ fault)

Probe-cases : (p : Probe) → ProbeCases p
Probe-cases before = inl refl
Probe-cases at = inr (inl refl)
Probe-cases after = inr (inr (inl refl))
Probe-cases fault = inr (inr (inr refl))

module _ (probe : ℕ → Probe) (total : ℕ) (ok : InOrder probe total) where
  abbrev Meets : ℕ → ℕ → Run (Option ℕ) → Type 0
  Meets start stop r = Returns r (Finds probe start stop)

  one_left :
      (fuel start : ℕ)
      → start < total
      → Meets start (start + 1) (search_loop probe (suc fuel) start 1)
  one_left fuel start within = elim (Probe-cases (probe start)) [
    | inr (inl e) ↦
        subst (Meets start (start + 1)) (sym (last_at probe fuel start e))
          (omega arith, omega arith, e)
    | inl e ↦ other (before-ne-at (probe start) e)
    | inr (inr (inl e)) ↦ other (after-ne-at (probe start) e)
    | inr (inr (inr e)) ↦ absurd (ok.readable start within e)
  ]
    where
      other : probe start ≢ at → Meets start (start + 1) (search_loop probe (suc fuel) start 1)
      other h =
          subst (Meets start (start + 1))
            (sym (last_other probe fuel start (ok.readable start within) h))
            (λ i lo hi. let e : i ≡ start = omega arith in rw e h)

  -- One round, when the search of either half is right.
  halve :
      (fuel start n : ℕ)
      → 1 < n
      → start + n ≤ total
      → Meets start (start + n / 2) (search_loop probe fuel start (n / 2))
      → Meets
          (start + n / 2 + 1)
          (start + n / 2 + 1 + (n - n / 2 - 1))
          (search_loop probe fuel (start + n / 2 + 1) (n - n / 2 - 1))
      → Meets start (start + n) (search_loop probe (suc fuel) start n)
  halve fuel start n many within lower upper = elim (Probe-cases (probe (start + n / 2))) [
    | inr (inl e) ↦
        subst (Meets start (start + n)) (sym (step_at probe fuel start n many e))
          (omega arith, omega arith, e)
    | inl e ↦ subst (Meets start (start + n)) (sym (step_before probe fuel start n many e)) (
        widen probe start (start + n / 2) start (start + n) (omega arith) (omega arith)
          (λ i lo hi. absurd (omega arith))
          (λ i lo hi. before-ne-at (probe i) (ok.later (start + n / 2) i e lo (omega arith))) _
          lower)
    | inr (inr (inl e)) ↦
        subst (Meets start (start + n)) (sym (step_after probe fuel start n many e)) (
          widen probe (start + n / 2 + 1) (start + n / 2 + 1 + (n - n / 2 - 1)) start (start + n)
            (omega arith) (omega arith)
            (λ i lo hi.
              after-ne-at (probe i) (ok.earlier i (start + n / 2) e (omega arith) (omega arith)))
            (λ i lo hi. absurd (omega arith)) _ upper)
    | inr (inr (inr e)) ↦ absurd (ok.readable (start + n / 2) (omega arith) e)
  ]

  -- What the search finds in the entries from `start` on, with fuel for their number.
  pub search_loop-Finds :
      (fuel start n : ℕ)
      → n < fuel
      → start + n ≤ total
      → Returns (search_loop probe fuel start n) (Finds probe start (start + n))
  search_loop-Finds zero start n enough within = absurd (omega arith)
  search_loop-Finds (suc fuel) start zero enough within =
      unfold search_loop last_entry in λ i lo hi. absurd (omega arith)
  search_loop-Finds (suc fuel) start (suc zero) enough within = one_left fuel start (omega arith)
  search_loop-Finds (suc fuel) start (suc (suc m)) enough within =
      halve fuel start (suc (suc m)) (omega arith) within
        (search_loop-Finds fuel start (suc (suc m) / 2) (omega arith) (omega arith))
        (search_loop-Finds fuel (start + suc (suc m) / 2 + 1) (suc (suc m) - suc (suc m) / 2 - 1)
          (omega arith) (omega arith))

-- The search of a whole table.
pub search-Finds :
    (probe : ℕ → Probe) (n : ℕ)
    → InOrder probe n
    → Returns (search_loop probe (suc n) 0 n) (Finds probe 0 n)
search-Finds probe n ok =
    let e : 0 + n ≡ n = omega arith in
    subst (λ stop. Returns (search_loop probe (suc n) 0 n) (Finds probe 0 stop)) e
      (search_loop-Finds probe n ok (suc n) 0 n (omega arith) (omega arith))
