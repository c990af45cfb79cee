-- ===== src/Sni/ServerName/Labels.antt =====
-- The walk over the dots measures the pieces between them.
use aegiuw.Prelude.{
  ltb, ◌==◌, Bool-cases, Bytes, length, ℕ, ◌+◌, ◌-◌, ◌≤◌, ◌≡◌, ◌↔◌, inl, inr, false, List, [], ◌∷◌,
  arith,
}
use aegiuw.Sni.ServerName.{has_long_label, max_label_len}
use aegiuw.Sni.Std.{split_dots, attach}

-- The pieces of a text between its dots are labels of at most 63 bytes.
abbrev pub AreLabels : List Bytes → Type 0
AreLabels [] = Unit
AreLabels (l ∷ ls) = (length l ≤ max_label_len) × AreLabels ls

-- The same with `k` bytes in front of the first piece.
abbrev AreLabelsFrom : ℕ → List Bytes → Type 0
AreLabelsFrom k [] = k ≤ max_label_len
AreLabelsFrom k (l ∷ ls) = (k + length l ≤ max_label_len) × AreLabels ls

AreLabelsFrom-zero : (ls : List Bytes) → AreLabelsFrom 0 ls ↔ AreLabels ls
AreLabelsFrom-zero [] = (λ h. tt, λ h. omega arith)
AreLabelsFrom-zero (l ∷ ls) = (λ h. (omega arith, h.1), λ h. (omega arith, h.1))

AreLabelsFrom-attach :
    (k b : ℕ) (ls : List Bytes) → AreLabelsFrom (k + 1) ls ↔ AreLabelsFrom k (attach b ls)
AreLabelsFrom-attach k b [] = (λ h. (omega arith, tt), λ h. omega arith)
AreLabelsFrom-attach k b (l ∷ ls) = (λ h. (omega arith, h.1), λ h. (omega arith, h.1))

-- The walk, with the label's length so far.
has_long_label_from :
    (i prev k : ℕ) (s : Bytes)
    → i ≡ prev + k
    → (has_long_label i prev s ≡ false) ↔ AreLabelsFrom k (split_dots s)
unfolding has_long_label split_dots
has_long_label_from i prev k [] e = (λ h. (ground arith, tt), λ h. ground arith)
has_long_label_from i prev k (b ∷ s) e = elim (Bool-cases (b == b'.')) [
  | inl y ↦
      let ih = has_long_label_from (i + 1) (i + 1) 0 s (omega arith) in
      let zero = AreLabelsFrom-zero (split_dots s) in
      rw y (elim (Bool-cases (ltb max_label_len (i - prev))) [
        | inl long ↦ rw long (λ h. cc, λ h. absurd (ground arith))
        | inr short ↦ rw short (λ h. (ground arith, zero.0 (ih.0 h)), λ h. ih.1 (zero.1 h.1))
      ])
  | inr x ↦
      let ih = has_long_label_from (i + 1) prev (k + 1) s (omega arith) in
      let put = AreLabelsFrom-attach k b (split_dots s) in
      rw x (λ h. put.0 (ih.0 h), λ h. ih.1 (put.1 h))
]

-- The walk over the dots accepts exactly the names whose pieces between dots have 63 bytes at most.
pub has_long_label-split_dots :
    (s : Bytes) → (has_long_label 0 0 s ≡ false) ↔ AreLabels (split_dots s)
has_long_label-split_dots s =
    let walk = has_long_label_from 0 0 0 s (omega arith) in
    let zero = AreLabelsFrom-zero (split_dots s) in (λ h. zero.0 (walk.0 h), λ h. walk.1 (zero.1 h))
