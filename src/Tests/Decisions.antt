-- ===== src/Tests/Decisions.antt =====
-- The claims about the heuristics, the policy and the decision.
use aegiuw.Prelude.{Bytes, ℕ, ◌≤◌, ◌≡◌, refl, ◌↔◌, ◌⊎◌, true, some, List, [], ◌∷◌}
use aegiuw.Prelude.Text.{codes}
use aegiuw.Sni.Extract.{extract_sni}
use aegiuw.Risk.{
  RiskSignal, not_in_safe_cache, risky_launch_context, rank, evaluate, allows_native_path,
}
use aegiuw.Risk.Policy.{AllAtMost, Attains, evaluate_worst}
use aegiuw.Heuristics.Levenshtein.{distance, sample_brands}
use aegiuw.Heuristics.Levenshtein.Typosquat.{Legitimate, Far, Flagged, check_typosquat_cases}
use aegiuw.Heuristics.Levenshtein.Edits.{Edits, nothing, keep, delete, distance-least}
use aegiuw.Daemon.{assess}
use aegiuw.Daemon.Safety.{NamesCached, expected_level, assess-native, assess-level}
use aegiuw.Tests.{visit, outlook}

assess-native_example :
    (allows_native_path (assess visit outlook).1 ≡ true) ↔ NamesCached (extract_sni visit)
assess-native_example = assess-native visit outlook

assess-level_example : (assess visit outlook).1.level ≡ expected_level (extract_sni visit) outlook
assess-level_example = assess-level visit outlook

abbrev signals : List RiskSignal
signals = not_in_safe_cache ∷ risky_launch_context outlook ∷ []

evaluate_worst_example :
    AllAtMost (rank (evaluate signals).level) signals
    × Attains (rank (evaluate signals).level) signals
evaluate_worst_example = evaluate_worst not_in_safe_cache (risky_launch_context outlook ∷ [])

-- "cat" to "at": the first letter goes.
cat-Edits : Edits (codes "cat") (codes "at") 1
cat-Edits = delete (keep refl (keep refl nothing))

distance-least_example :
    (d : ℕ) × (distance (codes "cat") (codes "at") ≡ some d)
    × Edits (codes "cat") (codes "at") d
    × (d ≤ 1)
distance-least_example = distance-least (codes "cat") (codes "at") cat-Edits

abbrev squat : Bytes
squat = codes "githab.com"

check_typosquat_cases_example :
    Legitimate squat sample_brands 2 ⊎ Far squat sample_brands 2 ⊎ Flagged squat sample_brands 2
check_typosquat_cases_example = check_typosquat_cases squat sample_brands 2
