-- ===== src/Fingerprint/Decimal.antt =====
-- Decimal texts, read back.
use aegiuw.Prelude.{
  ltb, Bool-cases, Bytes, is_empty, all, ℕ, zero, suc, ◌+◌, ◌-◌, ◌*◌, ◌/◌, ◌%◌, ◌<◌, ◌≡◌, refl, ap,
  ◌∙◌, inl, inr, Bool, true, false, [], ◌∷◌, arith,
}
use aegiuw.Sni.Std.{is_digit}
use aegiuw.Fingerprint.{decimal_onto, decimal}

-- The number that digits spell behind `n`.
abbrev pub value : ℕ → Bytes → ℕ
value n [] = n
value n (c ∷ s) = value (n * 10 + (c - b'0')) s

-- A round of the division by ten.
pub decimal_onto-small :
    (fuel n : ℕ) (out : Bytes) → ltb n 10 ≡ true → decimal_onto (suc fuel) n out ≡ (b'0' + n) ∷ out
unfolding decimal_onto
decimal_onto-small fuel n out y =
    ap
      (λ (t : Bool). elim t as (λ _. Bytes) [
        | true ↦ (b'0' + n) ∷ out
        | false ↦ decimal_onto fuel (n / 10) ((b'0' + n % 10) ∷ out)
      ])
      y

pub decimal_onto-large :
    (fuel n : ℕ) (out : Bytes)
    → ltb n 10 ≡ false
    → decimal_onto (suc fuel) n out ≡ decimal_onto fuel (n / 10) ((b'0' + n % 10) ∷ out)
unfolding decimal_onto
decimal_onto-large fuel n out z =
    ap
      (λ (t : Bool). elim t as (λ _. Bytes) [
        | true ↦ (b'0' + n) ∷ out
        | false ↦ decimal_onto fuel (n / 10) ((b'0' + n % 10) ∷ out)
      ])
      z

value-decimal_onto :
    (fuel n : ℕ) (out : Bytes) → n < fuel → value 0 (decimal_onto fuel n out) ≡ value n out
value-decimal_onto zero n out h = absurd (omega arith)
value-decimal_onto (suc fuel) n out h = elim (Bool-cases (ltb n 10)) [
  | inl y ↦ ap (value 0) (decimal_onto-small fuel n out y) ∙ ap (λ k. value k out) (omega arith)
  | inr z ↦
      ap (value 0) (decimal_onto-large fuel n out z)
      ∙ value-decimal_onto fuel (n / 10) ((b'0' + n % 10) ∷ out) (ground arith)
      ∙ ap (λ k. value k out) (omega arith)
]

-- A number is read back from its digits.
pub value-decimal : (n : ℕ) → value 0 (decimal n) ≡ n
unfolding decimal
value-decimal n = value-decimal_onto (suc n) n [] (omega arith)

digits-decimal_onto :
    (fuel n : ℕ) (out : Bytes)
    → n < fuel
    → all is_digit out ≡ true
    → (all is_digit (decimal_onto fuel n out) ≡ true) × (is_empty (decimal_onto fuel n out) ≡ false)
digits-decimal_onto zero n out h d = absurd (omega arith)
digits-decimal_onto (suc fuel) n out h d = elim (Bool-cases (ltb n 10)) [
  | inl y ↦ rw (decimal_onto-small fuel n out y) (ground arith, refl)
  | inr z ↦
      rw (decimal_onto-large fuel n out z)
        (digits-decimal_onto fuel (n / 10) ((b'0' + n % 10) ∷ out) (ground arith) (ground arith))
]

-- It is written in digits, one at least.
pub digits-decimal : (n : ℕ) → (all is_digit (decimal n) ≡ true) × (is_empty (decimal n) ≡ false)
unfolding decimal
digits-decimal n = digits-decimal_onto (suc n) n [] (omega arith) refl
