-- ===== src/Unpack/Inverse/Found.antt =====
-- The loop of the scan takes an encoding piece by piece.
use protobuf_c.Base.{
  ℕ, zero, suc, ◌+◌, ◌^◌, ◌-◌, ◌*◌, ◌≤◌, ◌<◌, ◌≡◌, ◌≢◌, refl, sym, ap, ◌∙◌, arith, ◌==◌, false,
  List, [], ◌∷◌, ◌++◌, append_assoc, append-nil, length, length-append, concat_map, All,
}
use mathlib.Core.Path.{subst}
use protobuf_c.Memory.Input.{Input, advance, HoldsAt, HoldsAt-append, HoldsAt-advance, HoldsAt-eq}
use protobuf_c.Message.{MessageDescriptor, wire_code, wire_code-lt}
use protobuf_c.Message.Encode.{key}
use protobuf_c.Scalar.Parse.{parse_tag_and_wiretype}
use protobuf_c.Scalar.Parse.Tag.{parse_tag_and_wiretype-varint}
use protobuf_c.Unpack.Scan.Laws.{length-varint}
use protobuf_c.Unpack.Outcome.{Outcome, returned, Gives, Gives-bind, Gives-map, Gives-EndsOr}
use protobuf_c.Unpack.Value.{ScannedMember}
use protobuf_c.Unpack.Loop.{Scan, or_fail, scan_field, scan_round, scan_loop}
use protobuf_c.Unpack.Loop.Steps.{IsIndexed}
use protobuf_c.Unpack.Loop.Invariant.{IsScan}
use protobuf_c.Unpack.Loop.Rounds.{Advances, scan_round-EndsOr}
use protobuf_c.Unpack.Inverse.{Piece, tag_of, wire_of, body, bytes_of}
use protobuf_c.Unpack.Inverse.Scanned.{
  max_members, or_fail-Gives, Carried, Scannable, Took, scan_field-Gives,
}

-- Members that carry the pieces, one for each.
abbrev pub AllCarried : {X : Type 0} → (X → List ℕ) → List (Piece X) → List ScannedMember → Type 0
AllCarried sub [] [] = Unit {0}
AllCarried sub [] (m ∷ ms) = ⊥
AllCarried sub (p ∷ ps) [] = ⊥
AllCarried sub (p ∷ ps) (m ∷ ms) = Carried sub p m × AllCarried sub ps ms

module _ {X : Type 0} (sub : X → List ℕ) (answers : ℕ → ℕ) (answered : (k : ℕ) → answers k ≢ 0)
    (desc : MessageDescriptor) where
  scan_round-Gives :
      (p : Piece X) (rem : ℕ) (at : Input) (st : Scan) (calls : ℕ)
      → Scannable sub desc p
      → IsScan desc st
      → length st.members < max_members
      → length (bytes_of sub p) ≤ rem
      → HoldsAt at 0 (bytes_of sub p)
      → Gives
          (scan_round answers desc rem at st calls)
          (Took sub answers answered desc p (length (bytes_of sub p)) st)
  unfolding scan_round
  scan_round-Gives p rem at st calls ok scan few long holds =
      let tag = key (tag_of p) (wire_of p) in
      let total = length-append tag (body sub p) in
      let (front, back) = HoldsAt-append at 0 tag (body sub p) holds in
      let start : 0 + length tag ≡ length tag + 0 = omega arith in
      let behind =
        HoldsAt-advance at (length tag) 0 (body sub p)
          (HoldsAt-eq at (body sub p) _ _ start back) in
      let parsed =
        parse_tag_and_wiretype-varint (tag_of p) (wire_code (wire_of p)) rem at ok.tag_fits
          (wire_code-lt (wire_of p)) (omega (arith, total)) front in
      Gives-bind (λ r. r ≡ (length tag, tag_of p, wire_code (wire_of p)))
        (Took sub answers answered desc p (length (bytes_of sub p)) st) _
        (or_fail (parse_tag_and_wiretype rem at)) calls
        (or_fail-Gives (parse_tag_and_wiretype rem at) (length tag, tag_of p, wire_code (wire_of p))
          calls parsed)
        λ r calls1 e. rw e (
          Gives-bind (Took sub answers answered desc p (length (body sub p)) st)
            (Took sub answers answered desc p (length (bytes_of sub p)) st) _
            (scan_field answers desc (tag_of p) (wire_code (wire_of p)) (rem - length tag)
              (advance at (length tag)) st)
            calls1
            (scan_field-Gives sub answers answered desc p (rem - length tag)
              (advance at (length tag)) st calls1 ok scan few (omega (arith, total)) behind)
            λ (len, st') calls2 (same, m, grown, carried).
              (omega (arith, same, total), m, grown, carried))

  some_key : (p : Piece X) → 1 ≤ length (bytes_of sub p)
  some_key p = omega (
    arith,
    length-varint (tag_of p * 8 + wire_code (wire_of p)),
    length-append (key (tag_of p) (wire_of p)) (body sub p),
  )

  some_bytes : (p : Piece X) (ps : List (Piece X)) → 1 ≤ length (concat_map (bytes_of sub) (p ∷ ps))
  some_bytes p ps = omega (
    arith,
    length-varint (tag_of p * 8 + wire_code (wire_of p)),
    length-append (key (tag_of p) (wire_of p)) (body sub p),
    length-append (bytes_of sub p) (concat_map (bytes_of sub) ps),
  )

  -- The state after the pieces `ps` have been taken.
  abbrev pub Holds : List (Piece X) → Scan → Scan → Type 0
  Holds ps st st' =
      IsScan desc st'
      × (ms : List ScannedMember) × (st'.members ≡ st.members ++ ms)
      × AllCarried sub ps ms

  scan_loop-end :
      (fuel rem : ℕ) (at : Input) (st : Scan) (calls : ℕ)
      → rem ≡ 0
      → scan_loop answers desc fuel rem at st calls ≡ returned st calls
  unfolding scan_loop
  scan_loop-end zero rem at st calls e = rw e refl
  scan_loop-end (suc fuel) rem at st calls e = rw e refl

  pub scan_loop-Gives :
      (ps : List (Piece X)) (fuel rem : ℕ) (at : Input) (st : Scan) (calls : ℕ)
      → IsIndexed desc
      → rem ≡ length (concat_map (bytes_of sub) ps)
      → rem ≤ fuel
      → All (Scannable sub desc) ps
      → IsScan desc st
      → length st.members + length ps ≤ max_members
      → HoldsAt at 0 (concat_map (bytes_of sub) ps)
      → Gives (scan_loop answers desc fuel rem at st calls) (Holds ps st)
  unfolding scan_loop
  scan_loop-Gives [] fuel rem at st calls indexed e enough ok scan few holds =
      subst (λ (o : Outcome Scan). Gives o (Holds [] st))
        (sym (scan_loop-end fuel rem at st calls e)) (scan, [], sym (append-nil st.members), tt)
  scan_loop-Gives (p ∷ ps) zero rem at st calls indexed e enough ok scan few holds =
      absurd (omega (arith, some_bytes p ps))
  scan_loop-Gives (p ∷ ps) (suc fuel) rem at st calls indexed e enough (first, others) scan few
        holds =
      let others_bytes = concat_map (bytes_of sub) ps in
      let total = length-append (bytes_of sub p) others_bytes in
      let some_left = some_bytes p ps in
      let more : (rem == 0) ≡ false = ground (arith, some_left) in
      let (front, back) = HoldsAt-append at 0 (bytes_of sub p) others_bytes holds in
      rw more (
        Gives-bind
          (λ r.
            Took sub answers answered desc p (length (bytes_of sub p)) st r
            × Advances desc rem st r)
          (Holds (p ∷ ps) st) _ (scan_round answers desc rem at st) calls
          (Gives-EndsOr (2 ^ 32 ≤ length st.members + 16)
            (Took sub answers answered desc p (length (bytes_of sub p)) st) (Advances desc rem st)
            (scan_round answers desc rem at st calls)
            (scan_round-Gives p rem at st calls first scan (omega arith) (omega (arith, total))
              front)
            (scan_round-EndsOr answers desc indexed (2 ^ 32 ≤ length st.members + 16) rem at st
              calls (omega (arith, some_left)) scan λ h. h))
          λ (n, st') calls' ((same, m, grown, carried), (_, _, scan', _)).
            let behind : 0 + length (bytes_of sub p) ≡ n + 0 = omega (arith, same) in
            let count : length st'.members ≡ length st.members + 1 =
              ap (λ (ms : List ScannedMember). length ms) grown
              ∙ length-append st.members (m ∷ []) in
            Gives-map (Holds ps st') (Holds (p ∷ ps) st)
              (scan_loop answers desc fuel (rem - n) (advance at n) st' calls')
              (scan_loop-Gives ps fuel (rem - n) (advance at n) st' calls' indexed
                (omega (arith, e, total, same)) (omega (arith, same, some_key p)) others scan'
                (omega (arith, few, count))
                (HoldsAt-advance at n 0 others_bytes (HoldsAt-eq at others_bytes _ _ behind back)))
              λ st'' (scan'', ms, found, all). (
                scan'',
                m ∷ ms,
                found
                    ∙ ap (λ (xs : List ScannedMember). xs ++ ms) grown
                    ∙ append_assoc st.members (m ∷ []) ms,
                (carried, all),
              ))
