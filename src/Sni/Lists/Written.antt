-- ===== src/Sni/Lists/Written.antt =====
-- A list of items of one kind, written item by item, is read back item by item.
use aegiuw.Prelude.{
  leb, le→leb, AllOk, Bytes, length, length-append, map_option, ℕ, zero, suc, ◌<◌, ◌≡◌, refl, ap,
  ◌∙◌, true, some, List, [], ◌∷◌, ◌++◌, map, append-nil, append_assoc, arith,
}
use aegiuw.Cursor.{◌>>=◌, Reader, pure}
use aegiuw.Cursor.Reading.{at, new-at, remaining-at}
use aegiuw.Cursor.Loop.{while_remaining}
use aegiuw.Sni.Lists.{read_all}

-- How the items of a list are written: each as some bytes, from which the reader takes its value.
pub record Written {ℓ κ} {A : Type ℓ} {B : Type κ} (item : Reader B) (encode : A → Bytes)
    (value : A → B) (Ok : A → Type 0) : Type (ℓ ⊔ κ) where
  pub not_empty : (a : A) → Ok a → 0 < length (encode a)
  pub reads :
      (a : A)
      → Ok a
      → (pre rest : Bytes)
      → (pre' : Bytes) × (item (at pre (encode a ++ rest)) ≡ some (value a, at pre' rest))

abbrev pub encode_all {ℓ} : {A : Type ℓ} → (A → Bytes) → List A → Bytes
encode_all encode [] = []
encode_all encode (a ∷ xs) = encode a ++ encode_all encode xs

module _ {ℓ κ} {A : Type ℓ} {B : Type κ} (item : Reader B) (encode : A → Bytes) (value : A → B)
    (Ok : A → Type 0) (w : Written item encode value Ok) where
  loop-encode_all :
      (xs : List A) (fuel : ℕ) (out : List B) (pre : Bytes)
      → AllOk Ok xs
      → length (encode_all encode xs) < fuel
      → map_option
          (λ (out, _). out)
          (while_remaining fuel 1
            (λ out. do x ← item; pure (out ++ x ∷ []))
            out
            (at pre (encode_all encode xs)))
        ≡ some (out ++ map value xs)
  unfolding while_remaining
  loop-encode_all xs zero out pre k enough = absurd (omega arith)
  loop-encode_all [] (suc fuel) out pre k enough = rw (remaining-at pre [], append-nil out) refl
  loop-encode_all (a ∷ xs) (suc fuel) out pre k enough =
      let (pre', step) = w.reads a k.0 pre (encode_all encode xs) in
      let big = w.not_empty a k.0 in
      let size = length-append (encode a) (encode_all encode xs) in
      let more : leb 1 (length (encode a ++ encode_all encode xs)) ≡ true =
        le→leb 1 _ (omega arith) in
      rw (remaining-at pre (encode a ++ encode_all encode xs), more, step)
        (loop-encode_all xs fuel (out ++ value a ∷ []) pre' k.1 (omega arith)
          ∙ ap some (append_assoc out (value a ∷ []) (map value xs)))

  pub read_all-encode_all :
      (xs : List A) → AllOk Ok xs → read_all item (encode_all encode xs) ≡ some (map value xs)
  unfolding read_all
  read_all-encode_all xs k =
      let bytes = encode_all encode xs in
      rw (new-at bytes) (loop-encode_all xs (suc (length bytes)) [] [] k (omega arith))
