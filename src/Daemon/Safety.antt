-- ===== src/Daemon/Safety.antt =====
-- Which connections of crates/aegiuw-daemon/src/main.rs reach the network directly.
use aegiuw.Prelude.{
  if◌then◌else◌, Bool-cases, Bytes, bind, map_option, is_some, ℕ, ◌≡◌, refl, ◌↔◌, ◌⊎◌, inl, inr,
  Bool, true, false, Option, none, some, [], ◌∷◌,
}
use aegiuw.Sni.Types.{SniOutcome, cleartext, encrypted, not_found, malformed}
use aegiuw.Sni.Extract.{extract_sni}
use aegiuw.Risk.{
  RiskSignal, RiskLevel, safe, suspicious, typosquat, high_risk, unknown, risky_launch_context,
  severity, evaluate, into_signals, allows_native_path, max_of, max_from, max_level,
}
use aegiuw.Risk.Policy.{evaluate_never_native}
use aegiuw.Heuristics.Context.{assess_context, classify_parent, is_elevated_risk}
use aegiuw.Heuristics.Levenshtein.{check_typosquat, closest, sample_brands, default_max_distance}
use aegiuw.Daemon.{host_in_cache, assess_host, assess_hidden, assess_outcome, assess}

-- The outcome names a host of the cache.
abbrev pub NamesCached : SniOutcome → Type 0
NamesCached o = (h : Bytes) × (o ≡ cleartext h) × (host_in_cache h ≡ true)

outcome_native :
    (o : SniOutcome) (parent : Bytes)
    → (allows_native_path (assess_outcome o parent) ≡ true) ↔ NamesCached o
unfolding assess_outcome
outcome_native (cleartext h) parent = elim (Bool-cases (host_in_cache h)) [
  | inl e ↦ (λ n. (h, refl, e), λ c. rw e (unfold allows_native_path in refl))
  | inr e ↦ (λ n. cc (rw e at n, evaluate_never_native _), λ c. cc)
]
outcome_native encrypted parent = (λ n. cc (n, evaluate_never_native _), λ c. cc)
outcome_native not_found parent = (λ n. cc (n, evaluate_never_native _), λ c. cc)
outcome_native malformed parent = (λ n. cc (n, evaluate_never_native _), λ c. cc)

-- A connection takes the native path exactly when its server name is in clear and in the
-- allow-cache, whoever opened it.
pub assess-native :
    (ch parent : Bytes)
    → (allows_native_path (assess ch parent).1 ≡ true) ↔ NamesCached (extract_sni ch)
unfolding assess
assess-native ch parent = outcome_native (extract_sni ch) parent

abbrev pub elevated : Bytes → Bool
elevated parent = is_elevated_risk (classify_parent parent)

abbrev squats : Bytes → Bool
squats h = is_some (check_typosquat h sample_brands default_max_distance)

-- The level by a table: the cache first, then the parent process, then the spelling of the host.
abbrev pub expected_level : SniOutcome → Bytes → RiskLevel
expected_level (cleartext h) parent =
    if host_in_cache h
    then safe
    else if elevated parent
    then high_risk
    else if squats h
    then suspicious
    else unknown
expected_level _ parent = if elevated parent then high_risk else unknown

-- What the heuristics push: signals of a known severity.
context_cases :
    (parent : Bytes)
    → assess_context parent false
      ≡ (if elevated parent then some (risky_launch_context parent) else none)
unfolding assess_context
context_cases parent = refl

typosquat_cases :
    (h : Bytes)
    → (check_typosquat h sample_brands default_max_distance ≡ none)
      ⊎ ((b : Bytes) × (d : ℕ) × (check_typosquat h sample_brands default_max_distance
            ≡ some (typosquat h b d)))
unfolding check_typosquat
typosquat_cases h = go (closest h default_max_distance sample_brands none)
  where
    go :
        (o : Option (Option (ℕ × Bytes)))
        → (bind o (map_option λ (d, brand). typosquat h brand d) ≡ none)
          ⊎ ((b : Bytes) × (d : ℕ) × (bind o (map_option λ (d, brand). typosquat h brand d)
                ≡ some (typosquat h b d)))
    go none = inl refl
    go (some none) = inl refl
    go (some (some (d, b))) = inr (b, d, refl)

hidden_level :
    (o : SniOutcome) (s : RiskSignal) (parent : Bytes)
    → into_signals o ≡ s ∷ []
    → severity s ≡ unknown
    → (assess_hidden o parent).level ≡ (if elevated parent then high_risk else unknown)
unfolding assess_hidden evaluate max_of max_from max_level
hidden_level o s parent e f =
    rw (e, context_cases parent)
      (elim (Bool-cases (elevated parent)) [
        | inl y ↦ rw y (rw f (unfold severity in refl))
        | inr n ↦ rw n (rw f refl)
      ])

host_level : (h parent : Bytes) → (assess_host h parent).level ≡ expected_level (cleartext h) parent
unfolding assess_host evaluate max_of max_from max_level severity
host_level h parent = elim (Bool-cases (host_in_cache h)) [
  | inl y ↦ rw y refl
  | inr n ↦
      rw (n, context_cases parent)
        (elim (Bool-cases (elevated parent)) [
          | inl y ↦
              rw y (elim (typosquat_cases h) [ inl e ↦ rw e refl | inr (b, d, e) ↦ rw e refl ])
          | inr x ↦
              rw x (elim (typosquat_cases h) [ inl e ↦ rw e refl | inr (b, d, e) ↦ rw e refl ])
        ])
]

outcome_level :
    (o : SniOutcome) (parent : Bytes) → (assess_outcome o parent).level ≡ expected_level o parent
unfolding assess_outcome
outcome_level (cleartext h) parent = host_level h parent
outcome_level encrypted parent =
    unfold into_signals severity in hidden_level encrypted _ parent refl refl
outcome_level not_found parent =
    unfold into_signals severity in hidden_level not_found _ parent refl refl
outcome_level malformed parent =
    unfold into_signals severity in hidden_level malformed _ parent refl refl

-- The level of every connection, for every parent process, is that of the table `expected_level`:
-- safe for a host in clear of the allow-cache; else high risk under an elevated parent; else, for a
-- host in clear, suspicious if it is near a brand; and else unknown.
pub assess-level :
    (ch parent : Bytes) → (assess ch parent).1.level ≡ expected_level (extract_sni ch) parent
unfolding assess
assess-level ch parent = outcome_level (extract_sni ch) parent
