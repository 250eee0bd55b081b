-- ===== src/Memory/Input.antt =====
-- What is read through a `const uint8_t *`: the bytes from the pointer on, by index.
use protobuf_c.Base.{ℕ, ◌+◌, ◌≡◌, suc, arith, List, [], ◌∷◌, ◌++◌, length}

abbrev pub Input : Type 0
Input = ℕ → ℕ

-- `data + n`
abbrev pub advance : Input → ℕ → Input
advance input n i = input (n + i)

-- The bytes `bs` stand from `data[at]` on.
abbrev pub HoldsAt : Input → ℕ → List ℕ → Type 0
HoldsAt input at [] = Unit {0}
HoldsAt input at (b ∷ bs) = (input at ≡ b) × HoldsAt input (at + 1) bs

pub HoldsAt-eq :
    (input : Input) (bs : List ℕ) (i j : ℕ) → i ≡ j → HoldsAt input i bs → HoldsAt input j bs
HoldsAt-eq input bs i j e h = rw e at h

pub HoldsAt-append :
    (input : Input) (at : ℕ) (xs ys : List ℕ)
    → HoldsAt input at (xs ++ ys)
    → HoldsAt input at xs × HoldsAt input (at + length xs) ys
HoldsAt-append input at [] ys h = (tt, HoldsAt-eq input ys at (at + 0) (omega arith) h)
HoldsAt-append input at (x ∷ xs) ys (hx, h) =
    let (front, back) = HoldsAt-append input (at + 1) xs ys h in
    (
      (hx, front),
      HoldsAt-eq input ys (at + 1 + length xs) (at + suc (length xs)) (omega arith) back,
    )

-- Bytes after a pointer is advanced.
pub HoldsAt-advance :
    (input : Input) (n at : ℕ) (bs : List ℕ)
    → HoldsAt input (n + at) bs
    → HoldsAt (advance input n) at bs
HoldsAt-advance input n at [] h = tt
HoldsAt-advance input n at (b ∷ bs) (hb, h) =
    (hb, HoldsAt-advance input n (at + 1) bs (HoldsAt-eq input bs _ _ (omega arith) h))
