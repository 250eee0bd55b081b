-- ===== src/Scalar/Base128.antt =====
-- The base-128 encoding of the wire format: groups of seven bits, the lowest first, each but the
-- last with its top bit set.
use protobuf_c.Base.{
  ℕ, zero, suc, ◌+◌, ◌-◌, ◌/◌, ◌%◌, ◌^◌, ◌≤◌, ◌<◌, ◌≡◌, refl, arith, List, [], ◌∷◌, length, ltb,
  if◌then◌else◌, is_negative32,
}

-- At most `suc k` groups.
unfoldable pub groups : ℕ → ℕ → List ℕ
groups zero v = v ∷ []
groups (suc k) v =
    let rest = groups k (v / 128) in if ltb v 128 then v ∷ [] else (v % 128 + 128) ∷ rest

-- Ten groups hold any 64-bit number.
unfoldable pub varint : ℕ → List ℕ
unfolding groups
varint v = groups 9 v

-- An `int32_t` as the `int64_t` of the same value: what the wire format wants of `int32`.
abbrev pub sign_extend : ℕ → ℕ
sign_extend v = if is_negative32 v then v + (2 ^ 64 - 2 ^ 32) else v

pub varint_round : (k v : ℕ) → 128 ≤ v → groups (suc k) v ≡ (v % 128 + 128) ∷ groups k (v / 128)
unfolding groups
varint_round k v h = ground arith

pub varint_end : (k v : ℕ) → v < 128 → groups k v ≡ v ∷ []
unfolding groups
varint_end zero v h = refl
varint_end (suc k) v h = ground arith

-- The encoding of a number above 2 ^ 28, by its 32-bit halves.
pub varint_wide :
    (v : ℕ)
    → 2 ^ 28 ≤ v
    → varint v
      ≡ (v % 128 + 128)
        ∷ (v / 2 ^ 7 % 128 + 128)
        ∷ (v / 2 ^ 14 % 128 + 128)
        ∷ (v / 2 ^ 21 % 128 + 128)
        ∷ groups 5 (v / 2 ^ 28)
unfolding varint
varint_wide v h = ground (
  arith,
  varint_round 8 v,
  varint_round 7 (v / 128),
  varint_round 6 (v / 128 / 128),
  varint_round 5 (v / 128 / 128 / 128),
)

-- The ten bytes of a negative `int32`.
pub varint_negative :
    (v : ℕ)
    → 2 ^ 31 ≤ v
    → v < 2 ^ 32
    → varint (v + (2 ^ 64 - 2 ^ 32))
      ≡ (v % 128 + 128)
        ∷ (v / 2 ^ 7 % 128 + 128)
        ∷ (v / 2 ^ 14 % 128 + 128)
        ∷ (v / 2 ^ 21 % 128 + 128)
        ∷ (v / 2 ^ 28 + 240)
        ∷ 0xff
        ∷ 0xff
        ∷ 0xff
        ∷ 0xff
        ∷ 0x01
        ∷ []
varint_negative v lo hi = ground (
  arith,
  varint_wide (v + (2 ^ 64 - 2 ^ 32)),
  varint_round 4 w,
  varint_round 3 (w / 128),
  varint_round 2 (w / 128 / 128),
  varint_round 1 (w / 128 / 128 / 128),
  varint_round 0 (w / 128 / 128 / 128 / 128),
  varint_end 0 (w / 128 / 128 / 128 / 128 / 128),
)
  where
    w : ℕ
    w = (v + (2 ^ 64 - 2 ^ 32)) / 2 ^ 28

-- One group more does not matter to a number that fits.
pub groups-suc : (k v : ℕ) → v < 128 ^ suc k → groups (suc k) v ≡ groups k v
unfolding groups
groups-suc zero v h = ground arith
groups-suc (suc k) v h = ground (arith, groups-suc k (v / 128) (omega arith))

pub length-groups : (k v : ℕ) → (1 ≤ length (groups k v)) × (length (groups k v) ≤ k + 1)
unfolding groups
length-groups zero v = omega arith
length-groups (suc k) v = ground (arith, length-groups k (v / 128))
