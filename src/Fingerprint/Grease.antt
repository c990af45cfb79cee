-- ===== src/Fingerprint/Grease.antt =====
-- The values that `is_grease_codepoint` filters.
use aegiuw.Prelude.{
  Bool-cases, ℕ, ◌+◌, ◌*◌, ◌/◌, ◌%◌, ◌<◌, ◌≡◌, refl, ap, ◌↔◌, inl, inr, true, List, [], ◌∷◌, arith,
}
use aegiuw.Fingerprint.{is_grease_codepoint, without_grease}

-- A `u16` is GREASE exactly when it is one of the sixteen values of RFC 8701: 0x0A0A, 0x1A1A, and so
-- on to 0xFAFA.
pub is_grease_codepoint_iff :
    (v : ℕ)
    → v < 65536
    → (is_grease_codepoint v ≡ true) ↔ ((n : ℕ) × (n < 16) × (v ≡ 0x0a0a + n * 0x1010))
unfolding is_grease_codepoint
is_grease_codepoint_iff v h =
    (λ e. (v % 256 / 16, omega arith, ground arith), λ (n, lt, e). ground arith)

-- Filtering twice is filtering once.
pub without_grease_twice : (vs : List ℕ) → without_grease (without_grease vs) ≡ without_grease vs
unfolding without_grease
without_grease_twice [] = refl
without_grease_twice (v ∷ vs) = elim (Bool-cases (is_grease_codepoint v)) [
  | inl y ↦ rw y (without_grease_twice vs)
  | inr n ↦ rw n (rw n (ap (λ r. v ∷ r) (without_grease_twice vs)))
]
