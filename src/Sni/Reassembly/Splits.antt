-- ===== src/Sni/Reassembly/Splits.antt =====
-- A message cut at offsets, by the builder of the tests of crates/aegiuw-core/src/sni.rs.
use aegiuw.Prelude.{
  leb, leb→le, Bytes, length, take, drop, take-append-drop, length-take, length-drop,
  map_option-eq-some, when-eq-some, ℕ, zero, suc, ◌-◌, ◌≤◌, min, ◌≡◌, refl, sym, ap, ◌∙◌, subst,
  some, some-injective, List, [], ◌∷◌, ◌++◌, append-nil, arith,
}
use aegiuw.Sni.Types.{content_type_handshake, max_record_fragment}
use aegiuw.Sni.Wire.{wrap_record, fragments_from, build_fragmented_records}
use aegiuw.Sni.Reassembly.{reassemble_handshake_owned}
use aegiuw.Sni.Reassembly.Totals.{IsWhole}
use aegiuw.Sni.Reassembly.Fragments.{
  records_of, joined, FitRecords, reassemble_handshake_owned-records_of,
}

drop_nil : (k : ℕ) → drop {A = ℕ} k [] ≡ []
drop_nil zero = refl
drop_nil (suc k) = refl

drop-drop : (s : Bytes) (m n : ℕ) → m ≤ n → drop (n - m) (drop m s) ≡ drop n s
drop-drop s zero n le = let e : n - 0 ≡ n = omega arith in rw e refl
drop-drop [] (suc m) zero le = absurd (omega arith)
drop-drop [] (suc m) (suc n) le = drop_nil (suc n - suc m)
drop-drop (b ∷ s) (suc m) zero le = absurd (omega arith)
drop-drop (b ∷ s) (suc m) (suc n) le =
    let e : suc n - suc m ≡ n - m = omega arith in rw e (drop-drop s m n (omega arith))

-- The fragments that are written hold what is left of the message, and are no longer than it.
fragments_from-records_of :
    (splits : List ℕ) (prev : ℕ) (handshake : Bytes) {out : Bytes}
    → length handshake ≤ max_record_fragment
    → fragments_from prev handshake splits ≡ some out
    → (fs : List Bytes) × (out ≡ records_of fs) × (joined fs ≡ drop prev handshake) × FitRecords fs
unfolding fragments_from records_of
fragments_from-records_of [] prev handshake fits e =
    let (_, p) = when-eq-some (leb prev (length handshake)) _ e in
    (
      drop prev handshake ∷ [],
      sym (some-injective _ _ p) ∙ sym (append-nil _),
      append-nil (drop prev handshake),
      (omega (arith, length-drop prev handshake), tt),
    )
fragments_from-records_of (split ∷ splits) prev handshake fits e =
    let s = min split (length handshake) in
    let (le, p) = when-eq-some (leb prev s) _ e in
    let (out', q, r) = map_option-eq-some _ (fragments_from s handshake splits) p in
    let (fs, x, y, z) = fragments_from-records_of splits s handshake fits q in
    let piece = take (s - prev) (drop prev handshake) in
    (
      piece ∷ fs,
      sym r ∙ ap (λ o. wrap_record content_type_handshake piece ++ o) x,
      rw (y, ← drop-drop handshake prev s (leb→le prev s le))
          (take-append-drop (s - prev) (drop prev handshake)),
      (omega (arith, length-take (s - prev) (drop prev handshake), length-drop prev handshake), z),
    )

-- A whole message that fits in one record, cut into records at any offsets, comes back whole, with any
-- bytes behind, wherever the offsets do not descend below one another, so that the builder succeeds.
pub reassemble_handshake_owned-build_fragmented_records :
    (handshake : Bytes) (splits : List ℕ) (out rest : Bytes)
    → IsWhole handshake
    → length handshake ≤ max_record_fragment
    → build_fragmented_records handshake splits ≡ some out
    → reassemble_handshake_owned (out ++ rest) ≡ some handshake
unfolding build_fragmented_records
reassemble_handshake_owned-build_fragmented_records handshake splits out rest whole fits e =
    let (fs, x, y, z) = fragments_from-records_of splits 0 handshake fits e in
    rw (x, reassemble_handshake_owned-records_of fs rest z (subst IsWhole (sym y) whole))
      (ap some y)
