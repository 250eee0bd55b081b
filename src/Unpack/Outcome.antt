-- ===== src/Unpack/Outcome.antt =====
-- How a routine of src/google/protobuf-c/protobuf-c.c that allocates ends, and the macro DO_ALLOC.
use protobuf_c.Base.{ℕ, zero, suc, ◌+◌, Bool, true, false, ◌≡◌, ◌≢◌, refl}

-- A result with the number of calls of the allocator so far; a return of FALSE or NULL; an access that
-- the program may not make; or the bound of the model, which is on the depth of messages and on rounds.
pub data Outcome (A : Type 0) : Type 0 where
  returned : A → ℕ → Outcome A
  failed out_of_bounds out_of_fuel : Outcome A

abbrev pub Action : Type 0 → Type 0
Action A = ℕ → Outcome A

infixl 5 ◌>>=◌ ◌>>◌
abbrev pub ◌>>=◌ : {A B : Type 0} → Action A → (A → Action B) → Action B
◌>>=◌ m f calls = elim (m calls) [
  | returned a calls' ↦ f a calls'
  | failed ↦ failed
  | out_of_bounds ↦ out_of_bounds
  | out_of_fuel ↦ out_of_fuel
]

abbrev pub ◌>>◌ : {B : Type 0} → Action (Unit {0}) → Action B → Action B
m >> k = m >>= λ _. k

module _ {A : Type 0} where
  abbrev pub pure : A → Action A
  pure a calls = returned a calls

  abbrev pub fail : Action A
  fail calls = failed

  abbrev pub fault : Action A
  fault calls = out_of_bounds

-- `if (!test) return 0;`
abbrev pub require : Bool → Action (Unit {0})
require true = pure tt
require false = fail

-- NULL is a failure.
abbrev pub address_at : ℕ → ℕ → Outcome ℕ
address_at zero calls = failed
address_at (suc address) calls = returned (suc address) (calls + 1)

-- `answers k` is the address that the call number `k` of the allocator returns, 0 for NULL. It stands
-- for whatever the allocator does, with what it was given back in between.
module _ (answers : ℕ → ℕ) where
  unfoldable pub alloc : Action ℕ
  alloc calls = address_at (answers calls) calls

  -- DO_ALLOC, which gives NULL for no bytes.
  unfoldable pub do_alloc : ℕ → Action ℕ
  do_alloc zero = pure 0
  do_alloc (suc size) = alloc

-- The run comes to an end; a result that it returns satisfies `P`, and it does only what the program
-- may do, unless `E` holds.
abbrev pub EndsOr : {A : Type 0} → Type 0 → Outcome A → (A → Type 0) → Type 0
EndsOr E (returned a calls) P = P a
EndsOr E failed P = Unit {0}
EndsOr E out_of_bounds P = E
EndsOr E out_of_fuel P = ⊥

-- The run does what the program may do, and comes to an end; a result that it returns satisfies `P`.
abbrev pub Ends : {A : Type 0} → Outcome A → (A → Type 0) → Type 0
Ends o P = EndsOr ⊥ o P

module _ (E : Type 0) {A B : Type 0} (P : A → Type 0) (Q : B → Type 0) (f : A → Action B) where
  EndsOr-cases :
      (o : Outcome A)
      → EndsOr E o P
      → ((a : A) (calls : ℕ) → P a → EndsOr E (f a calls) Q)
      → EndsOr E (((λ (calls : ℕ). o) >>= f) 0) Q
  EndsOr-cases (returned a calls) h k = k a calls h
  EndsOr-cases failed h k = tt
  EndsOr-cases out_of_bounds h k = h
  EndsOr-cases out_of_fuel h k = h

  pub EndsOr-bind :
      (m : Action A) (calls : ℕ)
      → EndsOr E (m calls) P
      → ((a : A) (calls' : ℕ) → P a → EndsOr E (f a calls') Q)
      → EndsOr E ((m >>= f) calls) Q
  EndsOr-bind m calls h k = EndsOr-cases (m calls) h k

pub Ends-bind :
    {A B : Type 0} (P : A → Type 0) (Q : B → Type 0) (f : A → Action B) (m : Action A) (calls : ℕ)
    → Ends (m calls) P
    → ((a : A) (calls' : ℕ) → P a → Ends (f a calls') Q)
    → Ends ((m >>= f) calls) Q
Ends-bind P Q f m calls h k = EndsOr-bind ⊥ P Q f m calls h k

pub EndsOr-map :
    (E E' : Type 0) {A : Type 0} (P Q : A → Type 0) (o : Outcome A)
    → EndsOr E o P
    → (E → E')
    → ((a : A) → P a → Q a)
    → EndsOr E' o Q
EndsOr-map E E' P Q (returned a calls) h e k = k a h
EndsOr-map E E' P Q failed h e k = tt
EndsOr-map E E' P Q out_of_bounds h e k = e h
EndsOr-map E E' P Q out_of_fuel h e k = absurd h

pub Ends-map :
    {A : Type 0} (P Q : A → Type 0) (o : Outcome A) → Ends o P → ((a : A) → P a → Q a) → Ends o Q
Ends-map P Q o h k = EndsOr-map ⊥ ⊥ P Q o h (λ e. e) k

-- A run that only does what the program may do.
pub Ends-EndsOr :
    (E : Type 0) {A : Type 0} (P : A → Type 0) (o : Outcome A) → Ends o P → EndsOr E o P
Ends-EndsOr E P o h = EndsOr-map ⊥ E P P o h (λ e. absurd e) λ a p. p

pub EndsOr-Ends :
    (E : Type 0) {A : Type 0} (P Q : A → Type 0) (o : Outcome A)
    → EndsOr E o P
    → Ends o Q
    → Ends o (λ a. P a × Q a)
EndsOr-Ends E P Q (returned a calls) h k = (h, k)
EndsOr-Ends E P Q failed h k = tt
EndsOr-Ends E P Q out_of_bounds h k = absurd k
EndsOr-Ends E P Q out_of_fuel h k = absurd h

pub Ends-failed : {A : Type 0} (o : Outcome A) → Ends o (λ a. ⊥) → o ≡ failed
Ends-failed (returned a calls) h = absurd h
Ends-failed failed h = refl
Ends-failed out_of_bounds h = absurd h
Ends-failed out_of_fuel h = absurd h

module _ (answers : ℕ → ℕ) where
  pub alloc-Ends : (calls : ℕ) → Ends (alloc answers calls) (λ address. Unit {0})
  unfolding alloc
  alloc-Ends calls = answered (answers calls)
    where
      answered : (address : ℕ) → Ends (address_at address calls) (λ address. Unit {0})
      answered zero = tt
      answered (suc address) = tt

  pub do_alloc-Ends : (size calls : ℕ) → Ends (do_alloc answers size calls) (λ address. Unit {0})
  unfolding do_alloc
  do_alloc-Ends zero calls = tt
  do_alloc-Ends (suc size) calls = alloc-Ends calls

-- Where the run returns a result, it satisfies `P`.
abbrev pub Yields : {A : Type 0} → Outcome A → (A → Type 0) → Type 0
Yields (returned a calls) P = P a
Yields _ P = Unit {0}

module _ {A B : Type 0} (P : A → Type 0) (Q : B → Type 0) (f : A → Action B) where
  yields :
      (o : Outcome A)
      → Yields o P
      → ((a : A) (calls : ℕ) → P a → Yields (f a calls) Q)
      → Yields (((λ (calls : ℕ). o) >>= f) 0) Q
  yields (returned a calls) h k = k a calls h
  yields failed h k = tt
  yields out_of_bounds h k = tt
  yields out_of_fuel h k = tt

  pub Yields-bind :
      (m : Action A) (calls : ℕ)
      → Yields (m calls) P
      → ((a : A) (calls' : ℕ) → P a → Yields (f a calls') Q)
      → Yields ((m >>= f) calls) Q
  Yields-bind m calls h k = yields (m calls) h k

pub Yields-all : {A : Type 0} (P : A → Type 0) (o : Outcome A) → ((a : A) → P a) → Yields o P
Yields-all P (returned a calls) h = h a
Yields-all P failed h = tt
Yields-all P out_of_bounds h = tt
Yields-all P out_of_fuel h = tt

pub Yields-map :
    {A : Type 0} (P Q : A → Type 0) (o : Outcome A)
    → Yields o P
    → ((a : A) → P a → Q a)
    → Yields o Q
Yields-map P Q (returned a calls) h k = k a h
Yields-map P Q failed h k = tt
Yields-map P Q out_of_bounds h k = tt
Yields-map P Q out_of_fuel h k = tt

-- The run returns a result, which satisfies `P`.
abbrev pub Gives : {A : Type 0} → Outcome A → (A → Type 0) → Type 0
Gives (returned a calls) P = P a
Gives _ P = ⊥

module _ {A B : Type 0} (P : A → Type 0) (Q : B → Type 0) (f : A → Action B) where
  gives :
      (o : Outcome A)
      → Gives o P
      → ((a : A) (calls : ℕ) → P a → Gives (f a calls) Q)
      → Gives (((λ (calls : ℕ). o) >>= f) 0) Q
  gives (returned a calls) h k = k a calls h
  gives failed h k = absurd h
  gives out_of_bounds h k = absurd h
  gives out_of_fuel h k = absurd h

  pub Gives-bind :
      (m : Action A) (calls : ℕ)
      → Gives (m calls) P
      → ((a : A) (calls' : ℕ) → P a → Gives (f a calls') Q)
      → Gives ((m >>= f) calls) Q
  Gives-bind m calls h k = gives (m calls) h k

pub Gives-map :
    {A : Type 0} (P Q : A → Type 0) (o : Outcome A) → Gives o P → ((a : A) → P a → Q a) → Gives o Q
Gives-map P Q (returned a calls) h k = k a h
Gives-map P Q failed h k = absurd h
Gives-map P Q out_of_bounds h k = absurd h
Gives-map P Q out_of_fuel h k = absurd h

-- An allocator that never answers NULL.
module _ (answers : ℕ → ℕ) (answered : (k : ℕ) → answers k ≢ 0) where
  address_at-Gives :
      (address calls : ℕ) → address ≢ 0 → Gives (address_at address calls) (λ p. p ≢ 0)
  address_at-Gives zero calls h = absurd (h refl)
  address_at-Gives (suc address) calls h = h

  pub alloc-Gives : (calls : ℕ) → Gives (alloc answers calls) (λ p. p ≢ 0)
  unfolding alloc
  alloc-Gives calls = address_at-Gives (answers calls) calls (answered calls)

  pub do_alloc-Gives :
      (size calls : ℕ) → Gives (do_alloc answers size calls) (λ p. size ≢ 0 → p ≢ 0)
  unfolding do_alloc
  do_alloc-Gives zero calls = λ some_bytes. absurd (some_bytes refl)
  do_alloc-Gives (suc size) calls =
      Gives-map (λ p. p ≢ 0) (λ p. suc size ≢ 0 → p ≢ 0) (alloc answers calls) (alloc-Gives calls)
        λ p h _. h

pub Gives-EndsOr :
    (E : Type 0) {A : Type 0} (P Q : A → Type 0) (o : Outcome A)
    → Gives o P
    → EndsOr E o Q
    → Gives o (λ a. P a × Q a)
Gives-EndsOr E P Q (returned a calls) h k = (h, k)
Gives-EndsOr E P Q failed h k = absurd h
Gives-EndsOr E P Q out_of_bounds h k = absurd h
Gives-EndsOr E P Q out_of_fuel h k = absurd h
