-- ===== src/Unpack/Loop/Tally.antt =====
-- What the scanned members amount to, apart from how the loop keeps account of it.
use protobuf_c.Base.{
  ℕ, ◌+◌, ◌%◌, ◌≡◌, refl, arith, ◌==◌, if◌then◌else◌, List, [], ◌∷◌, ◌++◌, Bool, false, ◌||◌,
  Option, none, some, All, get_elem?,
}
use protobuf_c.Message.{required, optional, repeated, MessageDescriptor}
use protobuf_c.Unpack.Value.{ScannedMember}
use protobuf_c.Unpack.Loop.{FieldAt, count_elements}

abbrev pub value_or_zero : Option ℕ → ℕ
value_or_zero none = 0
value_or_zero (some n) = n

abbrev pub FromDesc : MessageDescriptor → Option FieldAt → Type 0
FromDesc desc none = Unit {0}
FromDesc desc (some (i, field)) = get_elem? desc.fields i ≡ some field

-- The elements that a member brings to the array of the field `f`.
abbrev pub brings_to : ℕ → Option FieldAt → ScannedMember → ℕ
brings_to f none m = 0
brings_to f (some (i, field)) m = elim field.label [
  | required ↦ 0
  | optional ↦ 0
  | repeated ↦ if f == i then value_or_zero (count_elements field m) else 0
]

abbrev pub brings : ℕ → ScannedMember → ℕ
brings f m = brings_to f m.field m

-- A required field whose bit is that of `f`.
abbrev pub marks_by : ℕ → Option FieldAt → Bool
marks_by f none = false
marks_by f (some (i, field)) = elim field.label [
  | required ↦ f % 128 == i % 128
  | optional ↦ false
  | repeated ↦ false
]

abbrev pub marks : ℕ → ScannedMember → Bool
marks f m = marks_by f m.field

abbrev pub counts_unknown : Option FieldAt → ℕ
counts_unknown none = 1
counts_unknown (some at) = 0

abbrev pub is_unknown : ScannedMember → ℕ
is_unknown m = counts_unknown m.field

-- The elements that a member of a repeated field brings can be counted.
abbrev pub CountableBy : Option FieldAt → ScannedMember → Type 0
CountableBy none m = Unit {0}
CountableBy (some (i, field)) m =
    field.label ≡ repeated → (n : ℕ) × (count_elements field m ≡ some n)

abbrev pub Countable : ScannedMember → Type 0
Countable m = CountableBy m.field m

module _ {A : Type 0} where
  abbrev pub any : (A → Bool) → List A → Bool
  any p [] = false
  any p (x ∷ xs) = p x || any p xs

  abbrev pub total : (A → ℕ) → List A → ℕ
  total p [] = 0
  total p (x ∷ xs) = p x + total p xs

  pub any_snoc : (p : A → Bool) (xs : List A) (x : A) → any p (xs ++ x ∷ []) ≡ (p x || any p xs)
  any_snoc p [] x = refl
  any_snoc p (y ∷ xs) x = ground (arith, any_snoc p xs x)

  pub total_snoc : (p : A → ℕ) (xs : List A) (x : A) → total p (xs ++ x ∷ []) ≡ total p xs + p x
  total_snoc p [] x = omega arith
  total_snoc p (y ∷ xs) x = omega (arith, total_snoc p xs x)

  pub All-snoc : (P : A → Type 0) (xs : List A) (x : A) → All P xs → P x → All P (xs ++ x ∷ [])
  All-snoc P [] x h hx = (hx, tt)
  All-snoc P (y ∷ xs) x (hy, h) hx = (hy, All-snoc P xs x h hx)
