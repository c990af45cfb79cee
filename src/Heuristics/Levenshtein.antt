-- ===== src/Heuristics/Levenshtein.antt =====
-- crates/aegiuw-core/src/heuristics/levenshtein.rs. A text is the list of its `char`s.
pub mod Rows
pub mod Edits
pub mod Typosquat
use aegiuw.Prelude.{
  ltb, leb, ◌==◌, if◌then◌else◌, Bytes, length, get_elem?, is_empty, bind, map_option, ℕ, zero, suc,
  ◌+◌, min, ◌&&◌, Option, none, some, List, [], ◌∷◌,
}
use aegiuw.Prelude.Text.{codes}
use aegiuw.Sni.Std.{eq_ignore_ascii_case}
use aegiuw.Risk.{RiskSignal, typosquat}

unfoldable pub substitution_cost : ℕ → ℕ → ℕ
substitution_cost ca cb = if ca == cb then 0 else 1

-- The inner loop, over what is left of `b` and of `prev`: `diag` is `prev[j]`, `left` is `curr[j]`,
-- and the result is `curr[j + 1 ..]`.
unfoldable pub row_cells : ℕ → Bytes → ℕ → List ℕ → ℕ → List ℕ
unfolding substitution_cost
row_cells ca (cb ∷ b) diag (up ∷ prev) left =
    let cell = min (min (up + 1) (left + 1)) (diag + substitution_cost ca cb) in
    cell ∷ row_cells ca b up prev cell
row_cells ca _ diag _ left = []

-- A round of the outer loop: row `i + 1` from row `i`.
unfoldable pub next_row : ℕ → ℕ → Bytes → List ℕ → List ℕ
next_row i ca b [] = []
next_row i ca b (diag ∷ prev) = (i + 1) ∷ row_cells ca b diag prev (i + 1)

unfoldable pub rows : ℕ → Bytes → Bytes → List ℕ → List ℕ
unfolding next_row row_cells
rows i [] b prev = prev
rows i (ca ∷ a) b prev = rows (i + 1) a b (next_row i ca b prev)

-- `i ..= i + n`.
unfoldable pub range_from : ℕ → ℕ → List ℕ
range_from i zero = i ∷ []
range_from i (suc n) = i ∷ range_from (i + 1) n

-- `none` would be the panic of an index out of bounds.
unfoldable pub distance : Bytes → Bytes → Option ℕ
unfolding rows range_from
distance a b =
    if is_empty a
    then some (length b)
    else if is_empty b
    then some (length a)
    else get_elem? (rows 0 a b (range_from 0 (length b))) (length b)

abbrev pub sample_brands : List Bytes
sample_brands =
    codes "microsoft.com"
    ∷ codes "paypal.com"
    ∷ codes "google.com"
    ∷ codes "apple.com"
    ∷ codes "amazon.com"
    ∷ codes "github.com"
    ∷ []

abbrev pub default_max_distance : ℕ
default_max_distance = 2

-- `best` after a brand at distance `d`.
unfoldable pub improve : ℕ → ℕ → Bytes → Option (ℕ × Bytes) → Option (ℕ × Bytes)
improve max_distance d brand best =
    if ltb 0 d && leb d max_distance
    then elim best [
      | some (bd, b) ↦ if leb bd d then some (bd, b) else some (d, brand)
      | none ↦ some (d, brand)
    ]
    else best

-- The loop over the brands: `none` is the early return for an exact match (or a panic).
unfoldable pub closest : Bytes → ℕ → List Bytes → Option (ℕ × Bytes) → Option (Option (ℕ × Bytes))
closest domain max_distance [] best = some best
closest domain max_distance (brand ∷ brands) best =
    let rest =
      bind (distance domain brand)
        (λ d. closest domain max_distance brands (improve max_distance d brand best)) in
    if eq_ignore_ascii_case domain brand then none else rest

unfoldable pub check_typosquat : Bytes → List Bytes → ℕ → Option RiskSignal
unfolding closest improve
check_typosquat domain brands max_distance =
    bind (closest domain max_distance brands none)
      (map_option λ (d, brand). typosquat domain brand d)
