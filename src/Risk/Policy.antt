-- ===== src/Risk/Policy.antt =====
-- The policy of crates/aegiuw-core/src/risk.rs: the worst signal decides, and no signals are unknown.
use mathlib.Core.List.{Permᴰ, Perm}
use mathlib.Core.Logic.{∥∥₁_elim}
use native.Mathlib.Decide.{dec_le}
use aegiuw.Prelude.{
  ℕ, ◌≤◌, max, ◌≡◌, refl, sym, ap, ◌∙◌, subst, ◌⊎◌, inl, inr, false, List, [], ◌∷◌, map, arith,
}
use aegiuw.Risk.{
  RiskLevel, RiskSignal, rank, severity, max_level, max_from, max_of, evaluate, allows_native_path,
}

-- The rank of a signal by itself.
abbrev pub signal_rank : RiskSignal → ℕ
signal_rank s = rank (severity s)

-- `n` is a rank of one of the signals, and every rank is at most `n`.
abbrev pub AllAtMost : ℕ → List RiskSignal → Type 0
AllAtMost n [] = Unit
AllAtMost n (s ∷ ss) = (signal_rank s ≤ n) × AllAtMost n ss

abbrev pub Attains : ℕ → List RiskSignal → Type 0
Attains n [] = ⊥
Attains n (s ∷ ss) = (signal_rank s ≡ n) ⊎ Attains n ss

-- The greatest rank from `n` on.
worst_from : ℕ → List RiskSignal → ℕ
worst_from n [] = n
worst_from n (s ∷ ss) = worst_from (max n (signal_rank s)) ss

rank-max_level : (a b : RiskLevel) → rank (max_level a b) ≡ max (rank a) (rank b)
unfolding max_level
rank-max_level a b = ground arith

rank-max_from :
    (m : RiskLevel) (ss : List RiskSignal)
    → rank (max_from m (map severity ss)) ≡ worst_from (rank m) ss
unfolding max_from worst_from
rank-max_from m [] = refl
rank-max_from m (s ∷ ss) =
    rank-max_from (max_level m (severity s)) ss
    ∙ ap (λ n. worst_from n ss) (rank-max_level m (severity s))

rank-evaluate :
    (s : RiskSignal) (ss : List RiskSignal)
    → rank (evaluate (s ∷ ss)).level ≡ worst_from (signal_rank s) ss
unfolding evaluate max_of
rank-evaluate s ss = rank-max_from (severity s) ss

worst_from-ge :
    (n : ℕ) (ss : List RiskSignal) → (n ≤ worst_from n ss) × AllAtMost (worst_from n ss) ss
unfolding worst_from
worst_from-ge n [] = (omega arith, tt)
worst_from-ge n (s ∷ ss) =
    let (p, q) = worst_from-ge (max n (signal_rank s)) ss in (omega arith, (omega arith, q))

worst_from-Attains :
    (n : ℕ) (ss : List RiskSignal) → (worst_from n ss ≡ n) ⊎ Attains (worst_from n ss) ss
unfolding worst_from
worst_from-Attains n [] = inl refl
worst_from-Attains n (s ∷ ss) = elim (worst_from-Attains (max n (signal_rank s)) ss) [
  | inl e ↦ elim (dec_le (signal_rank s) n) [
    | yes h ↦ inl (omega arith)
    | no h ↦ inr (inl (omega arith))
  ]
  | inr q ↦ inr (inr q)
]

severity-ne-safe : (s : RiskSignal) → 1 ≤ signal_rank s
unfolding severity
severity-ne-safe s = ground arith

-- No verdict that is folded from signals, whatever they are and of none included, allows the native
-- path.
pub evaluate_never_native : (ss : List RiskSignal) → allows_native_path (evaluate ss) ≡ false
unfolding allows_native_path
evaluate_never_native [] = unfold evaluate max_of in refl
evaluate_never_native (s ∷ ss) =
    ground (arith, rank-evaluate s ss, worst_from-ge (signal_rank s) ss, severity-ne-safe s)

-- The level of the verdict of one signal or more is the worst severity among them: none is worse, and
-- one is as bad.
pub evaluate_worst :
    (s : RiskSignal) (ss : List RiskSignal)
    → AllAtMost (rank (evaluate (s ∷ ss)).level) (s ∷ ss)
      × Attains (rank (evaluate (s ∷ ss)).level) (s ∷ ss)
evaluate_worst s ss =
    subst (λ n. AllAtMost n (s ∷ ss) × Attains n (s ∷ ss)) (sym (rank-evaluate s ss))
      (worst_from-ge (signal_rank s) ss, here (worst_from-Attains (signal_rank s) ss))
  where
    here :
        (worst_from (signal_rank s) ss ≡ signal_rank s) ⊎ Attains (worst_from (signal_rank s) ss) ss
        → Attains (worst_from (signal_rank s) ss) (s ∷ ss)
    here (inl e) = inl (sym e)
    here (inr a) = inr a

worst_from-perm :
    {xs ys : List RiskSignal} → Permᴰ xs ys → (n : ℕ) → worst_from n xs ≡ worst_from n ys
unfolding worst_from
worst_from-perm Permᴰ.nil n = refl
worst_from-perm (Permᴰ.cons {a} {b} {l₁} {l₂} e d) n =
    worst_from-perm d (max n (signal_rank a)) ∙ ap (λ s. worst_from (max n (signal_rank s)) l₂) e
worst_from-perm (Permᴰ.swap {a} {b} {a'} {b'} {l} e f) n =
    rw (e, f) (ap (λ m. worst_from m l) (omega arith))
worst_from-perm (Permᴰ.trans d e) n = worst_from-perm d n ∙ worst_from-perm e n

rank-evaluate-max : (ss : List RiskSignal) → rank (evaluate ss).level ≡ max 1 (worst_from 0 ss)
unfolding worst_from
rank-evaluate-max [] = unfold evaluate max_of in refl
rank-evaluate-max (s ∷ ss) =
    let e : max 0 (signal_rank s) ≡ signal_rank s = omega arith in
    rank-evaluate s ss
    ∙ rw e (omega (arith, severity-ne-safe s, (worst_from-ge (signal_rank s) ss).0))

rank-injective : (a b : RiskLevel) → rank a ≡ rank b → a ≡ b
rank-injective a b h = ground arith

RiskLevel-set : IsSet RiskLevel
RiskLevel-set = hlevel

-- The level of a verdict is the same for two lists of signals that differ in their order only.
pub evaluate-perm :
    (xs ys : List RiskSignal) → Perm xs ys → (evaluate xs).level ≡ (evaluate ys).level
evaluate-perm xs ys h = ∥∥₁_elim h (RiskLevel-set _ _) (λ d.
    rank-injective _ _
      (rank-evaluate-max xs ∙ ap (max 1) (worst_from-perm d 0) ∙ sym (rank-evaluate-max ys)))
