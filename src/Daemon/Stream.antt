-- ===== src/Daemon/Stream.antt =====
-- The decision of the daemon on a connection whose bytes are still coming.
use aegiuw.Prelude.{
  ltb, leb, Bool-cases, Bytes, length, take, ℕ, ◌+◌, ◌≤◌, ◌≡◌, refl, sym, ap, ◌∙◌, inl, inr, true,
  false, ◌&&◌, ◌++◌, arith,
}
use aegiuw.Sni.Types.{malformed, max_record_fragment, content_type_handshake}
use aegiuw.Sni.Wire.{wrap_record}
use aegiuw.Sni.Reassembly.Totals.{IsWhole}
use aegiuw.Sni.Extract.{extract_sni}
use aegiuw.Sni.Extract.Stream.{extract_sni-take}
use aegiuw.Risk.{allows_native_path}
use aegiuw.Daemon.{assess_outcome, assess}
use aegiuw.Daemon.Safety.{assess-native}

-- The verdict is a function of the outcome.
native_of :
    (ch parent : Bytes)
    → allows_native_path (assess ch parent).1
      ≡ allows_native_path (assess_outcome (extract_sni ch) parent)
unfolding assess
native_of ch parent = refl

-- A malformed hello is never native.
malformed_never_native :
    (ch parent : Bytes)
    → extract_sni ch ≡ malformed
    → allows_native_path (assess ch parent).1 ≡ false
malformed_never_native ch parent e = elim (Bool-cases (allows_native_path (assess ch parent).1)) [
  | inl y ↦ let (h, named, cached) = (assess-native ch parent).0 y in absurd (cc (sym e ∙ named))
  | inr n ↦ n
]

-- While a byte of the record that holds the whole message is missing, the daemon does not let the
-- connection on the native path; from then on it decides as on the record alone, whatever follows it.
pub assess-take :
    (h rest parent : Bytes) (n : ℕ)
    → length h ≤ max_record_fragment
    → IsWhole h
    → allows_native_path (assess (take n (wrap_record content_type_handshake h ++ rest)) parent).1
      ≡ (leb (5 + length h) n
          && allows_native_path (assess (wrap_record content_type_handshake h) parent).1)
assess-take h rest parent n fit whole =
    let record_bytes = wrap_record content_type_handshake h in
    let seen = take n (record_bytes ++ rest) in
    elim (Bool-cases (leb (5 + length h) n)) [
      | inl y ↦
          let all_there : ltb n (5 + length h) ≡ false = ground arith in
          let same : extract_sni seen ≡ extract_sni record_bytes =
            extract_sni-take h rest n fit whole ∙ rw all_there refl in
          rw y (
            native_of seen parent
            ∙ ap (λ o. allows_native_path (assess_outcome o parent)) same
            ∙ sym (native_of record_bytes parent))
      | inr z ↦
          let cut : ltb n (5 + length h) ≡ true = ground arith in
          rw z
            (malformed_never_native seen parent (extract_sni-take h rest n fit whole ∙ rw cut refl))
    ]
