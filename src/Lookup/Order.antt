-- ===== src/Lookup/Order.antt =====
-- `strcmp` is a strict order on names.
use protobuf_c.Base.{◌≡◌, ℕ, refl, arith, List, [], ◌∷◌}
use protobuf_c.Lookup.{before, at, after, fault, compare_name}

pub compare_name-flip : (a b : List ℕ) → compare_name a b ≡ before → compare_name b a ≡ after
unfolding compare_name
compare_name-flip [] [] h = cc
compare_name-flip [] (y ∷ ys) h = cc
compare_name-flip (x ∷ xs) [] h = refl
compare_name-flip (x ∷ xs) (y ∷ ys) h = ground (arith, compare_name-flip xs ys)

pub compare_name-unflip : (a b : List ℕ) → compare_name a b ≡ after → compare_name b a ≡ before
unfolding compare_name
compare_name-unflip [] [] h = cc
compare_name-unflip [] (y ∷ ys) h = refl
compare_name-unflip (x ∷ xs) [] h = cc
compare_name-unflip (x ∷ xs) (y ∷ ys) h = ground (arith, compare_name-unflip xs ys)

pub compare_name_trans :
    (a b c : List ℕ)
    → compare_name a b ≡ after
    → compare_name b c ≡ after
    → compare_name a c ≡ after
unfolding compare_name
compare_name_trans [] [] cs h k = cc
compare_name_trans [] (y ∷ ys) [] h k = cc
compare_name_trans [] (y ∷ ys) (z ∷ zs) h k = refl
compare_name_trans (x ∷ xs) [] cs h k = cc
compare_name_trans (x ∷ xs) (y ∷ ys) [] h k = cc
compare_name_trans (x ∷ xs) (y ∷ ys) (z ∷ zs) h k = ground (arith, compare_name_trans xs ys zs)

pub compare_name_eq : (a b : List ℕ) → compare_name a b ≡ at → a ≡ b
unfolding compare_name
compare_name_eq [] [] h = refl
compare_name_eq [] (y ∷ ys) h = cc
compare_name_eq (x ∷ xs) [] h = cc
compare_name_eq (x ∷ xs) (y ∷ ys) h = ground (arith, compare_name_eq xs ys)

pub compare_name_refl : (a : List ℕ) → compare_name a a ≡ at
unfolding compare_name
compare_name_refl [] = refl
compare_name_refl (x ∷ xs) = ground (arith, compare_name_refl xs)

pub compare_name-ne-fault : (a b : List ℕ) → compare_name a b ≡ fault → ⊥
unfolding compare_name
compare_name-ne-fault [] [] h = cc
compare_name-ne-fault [] (y ∷ ys) h = cc
compare_name-ne-fault (x ∷ xs) [] h = cc
compare_name-ne-fault (x ∷ xs) (y ∷ ys) h = ground (arith, compare_name-ne-fault xs ys)
