-- ===== src/Unpack/Value/Laws.antt =====
-- What a member that carries an encoded value stores.
use protobuf_c.Base.{
  ℕ, zero, suc, ◌+◌, ◌≡◌, ◌≢◌, refl, ap, arith, u32, IsU32, ◌==◌, List, [], ◌∷◌, Bool, true, false,
  All, length, length-append,
}
use protobuf_c.Memory.Input.{Input, advance, HoldsAt, HoldsAt-append, HoldsAt-advance, HoldsAt-eq}
use protobuf_c.Message.{
  FieldType, string, bytes, message, FieldDescriptor, MessageDescriptor, Pointer, null, to, Value,
  chars, binary, submessage, as_string, as_binary, as_submessage, wire_code, WireType,
  length_prefixed,
}
use protobuf_c.Message.Encode.{prefixed, pointee, encode_pointer}
use protobuf_c.Scalar.Base128.{varint}
use protobuf_c.Unpack.Scan.Laws.{length-varint}
use protobuf_c.Unpack.Packed.RoundTrip.{canonical}
use protobuf_c.Unpack.Outcome.{Action, require, do_alloc, Gives, Gives-bind, do_alloc-Gives}
use protobuf_c.Unpack.Value.{
  ScannedMember, read_bytes, before_nul, content_len, store_string, parse_string, parse_bytes,
  parse_submessage, scalar,
}

-- The member has the bytes `bs`, of which a length takes `pref_len`.
pub record Carries (bs : List ℕ) (pref_len : ℕ) (wire_type : WireType) (m : ScannedMember)
    : Type 0 where
  pub wired : m.wire_type ≡ wire_code wire_type
  pub len : m.len ≡ length bs
  pub pref : m.length_prefix_len ≡ pref_len
  pub holds : HoldsAt m.input 0 bs

pub read_bytes-HoldsAt :
    (bs : List ℕ) (input : Input) → HoldsAt input 0 bs → read_bytes (length bs) input ≡ bs
read_bytes-HoldsAt [] input h = refl
read_bytes-HoldsAt (b ∷ bs) input (hb, h) =
    rw (hb, read_bytes-HoldsAt bs (advance input 1) (HoldsAt-advance input 1 0 bs h)) refl

before_nul-All : (bs : List ℕ) → All (λ b. b ≢ 0) bs → before_nul bs ≡ bs
before_nul-All [] h = refl
before_nul-All (b ∷ bs) (hb, h) = ground (arith, before_nul-All bs h)

-- The payload behind its length.
payload :
    (bs : List ℕ) (wire_type : WireType) (m : ScannedMember)
    → IsU32 (length (prefixed bs))
    → Carries (prefixed bs) (length (varint (u32 (length bs)))) wire_type m
    → (content_len m ≡ length bs) × HoldsAt (advance m.input m.length_prefix_len) 0 bs
payload bs wire_type m fits c =
    let total = length-append (varint (u32 (length bs))) bs in
    let (front, back) = HoldsAt-append m.input 0 (varint (u32 (length bs))) bs c.holds in
    let start : 0 + length (varint (u32 (length bs))) ≡ m.length_prefix_len + 0 =
      omega (arith, c.pref) in
    (
      omega (arith, total, c.len, c.pref),
      HoldsAt-advance m.input m.length_prefix_len 0 bs (HoldsAt-eq m.input bs _ _ start back),
    )

-- `w` is what `v` is restored to: a scalar as its type holds it, and a block with the same content.
-- `R` says when a submessage is restored to another.
module _ {X : Type 0} (R : X → X → Type 0) where
  abbrev pub RestoredAt : Pointer X → X → Type 0
  RestoredAt null y = ⊥
  RestoredAt (to a x) y = R x y

  abbrev pub Restored : FieldType → Value X → Value X → Type 0
  Restored string v w = (p : ℕ) × (w ≡ chars (to p (pointee (as_string v))))
  Restored bytes v w = (p : ℕ) × (w ≡ binary p (as_binary v))
  Restored message v w =
      (p : ℕ) × (y : X) × (w ≡ submessage (to p y)) × RestoredAt (as_submessage v) y
  Restored type v w = w ≡ canonical type v

-- A string has no NUL before its end, and a pointer to a message, which satisfies `P`, is not NULL.
module _ {X : Type 0} (P : X → Type 0) where
  abbrev pub StorableAt : Pointer X → Type 0
  StorableAt null = ⊥
  StorableAt (to a x) = P x

  abbrev pub Storable : FieldType → Value X → Type 0
  Storable string v = All (λ b. b ≢ 0) (pointee (as_string v))
  Storable message v = StorableAt (as_submessage v)
  Storable type v = Unit {0}

require-Gives :
    (test : Bool) (calls : ℕ) → test ≡ true → Gives (require test calls) (λ done. Unit {0})
require-Gives true calls e = tt
require-Gives false calls e = cc

module _ (answers : ℕ → ℕ) (answered : (k : ℕ) → answers k ≢ 0) {X : Type 0}
    (unpack : MessageDescriptor → ℕ → Input → Action (ℕ × X))
    (submessage_descriptor : FieldDescriptor → MessageDescriptor) where
  pub scalar-Gives :
      (wire_type : ℕ) (v w : Value X) (m : ScannedMember) (calls : ℕ)
      → m.wire_type ≡ wire_type
      → v ≡ w
      → Gives (scalar answers unpack submessage_descriptor wire_type v m calls) (λ r. r ≡ w)
  scalar-Gives wire_type v w m calls e same =
      Gives-bind (λ done. Unit {0}) (λ r. r ≡ w) _ (require (m.wire_type == wire_type)) calls
        (require-Gives (m.wire_type == wire_type) calls (ground arith)) λ done calls' h. same

  store_string-Gives :
      (bs : List ℕ) (input : Input) (len p calls : ℕ)
      → len ≡ length bs
      → p ≢ 0
      → All (λ b. b ≢ 0) bs
      → HoldsAt input 0 bs
      → Gives
          (store_string answers unpack submessage_descriptor len input p calls)
          (λ w. (p : ℕ) × (w ≡ chars (to p bs)))
  unfolding store_string
  store_string-Gives bs input len zero calls e some_p clean h = absurd (some_p refl)
  store_string-Gives bs input len (suc p) calls e some_p clean h =
      (suc p, rw (e, read_bytes-HoldsAt bs input h, before_nul-All bs clean) refl)

  pub parse_string-Gives :
      (bs : List ℕ) (m : ScannedMember) (calls : ℕ)
      → IsU32 (length (prefixed bs))
      → All (λ b. b ≢ 0) bs
      → Carries (prefixed bs) (length (varint (u32 (length bs)))) length_prefixed m
      → Gives
          (parse_string answers unpack submessage_descriptor m calls)
          (λ w. (p : ℕ) × (w ≡ chars (to p bs)))
  unfolding parse_string
  parse_string-Gives bs m calls fits clean c =
      let (len, holds) = payload bs length_prefixed m fits c in
      let total = length-append (varint (u32 (length bs))) bs in
      let size : u32 (content_len m + 1) ≢ 0 =
        λ e. omega (arith, len, total, length-varint (u32 (length bs))) in
      Gives-bind (λ done. Unit {0}) _ _ (require (m.wire_type == 2)) calls
        (require-Gives (m.wire_type == 2) calls (ground (arith, c.wired)))
        λ done calls1 h.
          Gives-bind (λ p. u32 (content_len m + 1) ≢ 0 → p ≢ 0) _ _
            (do_alloc answers (u32 (content_len m + 1))) calls1
            (do_alloc-Gives answers answered (u32 (content_len m + 1)) calls1)
            λ p calls2 some_p.
              store_string-Gives bs (advance m.input m.length_prefix_len) (content_len m) p calls2
                len (some_p size) clean holds

  pub parse_bytes-Gives :
      (bs : List ℕ) (m : ScannedMember) (calls : ℕ)
      → IsU32 (length (prefixed bs))
      → Carries (prefixed bs) (length (varint (u32 (length bs)))) length_prefixed m
      → Gives
          (parse_bytes answers unpack submessage_descriptor m calls)
          (λ w. (p : ℕ) × (w ≡ binary p bs))
  unfolding parse_bytes
  parse_bytes-Gives bs m calls fits c =
      let (len, holds) = payload bs length_prefixed m fits c in
      let content : read_bytes (content_len m) (advance m.input m.length_prefix_len) ≡ bs =
        rw len (read_bytes-HoldsAt bs (advance m.input m.length_prefix_len) holds) in
      Gives-bind (λ done. Unit {0}) _ _ (require (m.wire_type == 2)) calls
        (require-Gives (m.wire_type == 2) calls (ground (arith, c.wired)))
        λ done calls1 h.
          Gives-bind (λ p. content_len m ≢ 0 → p ≢ 0) _ _ (do_alloc answers (content_len m)) calls1
            (do_alloc-Gives answers answered (content_len m) calls1)
            λ p calls2 some_p. (p, ap (λ (bs : List ℕ). binary p bs) content)

  -- `sub` encodes a submessage, `P` holds of those that `unpack` reads back with the descriptor of the
  -- field.
  module _ (sub : X → List ℕ) (P : FieldDescriptor → X → Type 0) (R : X → X → Type 0)
      (reads : (field : FieldDescriptor) (x : X) (input : Input) (calls : ℕ)
        → P field x
        → HoldsAt input 0 (sub x)
        → Gives
            (unpack (submessage_descriptor field) (length (sub x)) input calls)
            (λ r. R x r.1)) where
    pub parse_submessage-Gives :
        (field : FieldDescriptor) (q : Pointer X) (m : ScannedMember) (calls : ℕ)
        → StorableAt (P field) q
        → IsU32 (length (prefixed (encode_pointer sub q)))
        → Carries
            (prefixed (encode_pointer sub q))
            (length (varint (u32 (length (encode_pointer sub q)))))
            length_prefixed
            m
        → Gives
            (parse_submessage answers unpack submessage_descriptor field m calls)
            (λ w. (p : ℕ) × (y : X) × (w ≡ submessage (to p y)) × RestoredAt R q y)
    unfolding parse_submessage
    parse_submessage-Gives field null m calls valid fits c = absurd valid
    parse_submessage-Gives field (to a x) m calls valid fits c =
        let (len, holds) = payload (sub x) length_prefixed m fits c in
        Gives-bind (λ done. Unit {0}) _ _ (require (m.wire_type == 2)) calls
          (require-Gives (m.wire_type == 2) calls (ground (arith, c.wired)))
          λ done calls1 h.
            Gives-bind (λ r. R x r.1) _ _
              (unpack (submessage_descriptor field) (content_len m)
                (advance m.input m.length_prefix_len))
              calls1
              (rw len (reads field x (advance m.input m.length_prefix_len) calls1 valid holds))
              λ (p, y) calls2 h. (p, y, refl, h)
