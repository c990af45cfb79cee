-- ===== src/Heuristics/Levenshtein/Edits.antt =====
-- The distance is the least number of edits between the two texts.
use aegiuw.Prelude.{
  ◌==◌, ==_iff, Bool-cases, Bytes, length, ℕ, suc, ◌+◌, ◌≤◌, min, ◌≡◌, refl, sym, ◌∙◌, subst, ◌⊎◌,
  inl, inr, some, [], ◌∷◌, ◌++◌, append-nil, arith,
}
use aegiuw.Heuristics.Levenshtein.{distance, substitution_cost}
use aegiuw.Heuristics.Levenshtein.Rows.{lev, lev-nil, rev_onto, distance-eq-lev}

-- `Edits a b n`: `n` replacements, insertions and deletions of one character turn `a` into `b`.
pub data Edits : Bytes → Bytes → ℕ → Type 0 where
  nothing : Edits [] [] 0
  keep : {x y : ℕ} {a b : Bytes} {n : ℕ} → x ≡ y → Edits a b n → Edits (x ∷ a) (y ∷ b) n
  replace : {x y : ℕ} {a b : Bytes} {n : ℕ} → Edits a b n → Edits (x ∷ a) (y ∷ b) (suc n)
  insert : {y : ℕ} {a b : Bytes} {n : ℕ} → Edits a b n → Edits a (y ∷ b) (suc n)
  delete : {x : ℕ} {a b : Bytes} {n : ℕ} → Edits a b n → Edits (x ∷ a) b (suc n)

insert_all : (q : Bytes) → Edits [] q (length q)
insert_all [] = nothing
insert_all (y ∷ q) = insert (insert_all q)

delete_all : (p : Bytes) → Edits p [] (length p)
delete_all [] = nothing
delete_all (x ∷ p) = delete (delete_all p)

substitute :
    (x y : ℕ) {a b : Bytes} {n : ℕ}
    → Edits a b n
    → Edits (x ∷ a) (y ∷ b) (n + substitution_cost x y)
unfolding substitution_cost
substitute x y {n = n} e = elim (Bool-cases (x == y)) [
  | inl t ↦ rw t (subst (Edits _ _) (omega arith) (keep ((==_iff x y).0 t) e))
  | inr t ↦ rw t (subst (Edits _ _) (omega arith) (replace {x = x} {y = y} e))
]

min_cases : (a b : ℕ) → (min a b ≡ a) ⊎ (min a b ≡ b)
min_cases a b = ground arith

Edits-lev : (p q : Bytes) → Edits p q (lev p q)
unfolding lev
Edits-lev [] q = insert_all q
Edits-lev (x ∷ p) [] = delete_all (x ∷ p)
Edits-lev (x ∷ p) (y ∷ q) =
    let d = Edits-lev p (y ∷ q) in
    let i = Edits-lev (x ∷ p) q in
    let s = Edits-lev p q in
    elim (min_cases (min (lev p (y ∷ q) + 1) (lev (x ∷ p) q + 1))
      (lev p q + substitution_cost x y)) [
        | inr e ↦ rw e (substitute x y s)
        | inl e ↦ rw e (elim (min_cases (lev p (y ∷ q) + 1) (lev (x ∷ p) q + 1)) [
          | inl f ↦ rw f (subst (Edits _ _) (omega arith) (delete {x = x} d))
          | inr f ↦ rw f (subst (Edits _ _) (omega arith) (insert {y = y} i))
        ])
      ]

substitution_cost-le : (x y : ℕ) → substitution_cost x y ≤ 1
unfolding substitution_cost
substitution_cost-le x y = ground arith

substitution_cost_same : (x y : ℕ) → x ≡ y → substitution_cost x y ≡ 0
unfolding substitution_cost
substitution_cost_same x y e = ground arith

lev_least : {p q : Bytes} {n : ℕ} → Edits p q n → lev p q ≤ n
unfolding lev
lev_least nothing = omega arith
lev_least (keep {x = x} {y = y} e r) = omega (arith, lev_least r, substitution_cost_same x y e)
lev_least (replace {x = x} {y = y} r) = omega (arith, lev_least r, substitution_cost-le x y)
lev_least (insert {a = []} r) = omega (arith, lev_least r)
lev_least (insert {a = x ∷ a} r) = omega (arith, lev_least r)
lev_least (delete {a = a} {b = []} r) = omega (arith, lev_least r, lev-nil a)
lev_least (delete {b = y ∷ b} r) = omega (arith, lev_least r)

Edits-rev_onto :
    {a b p q : Bytes} {n m : ℕ}
    → Edits a b n
    → Edits p q m
    → Edits (rev_onto a p) (rev_onto b q) (n + m)
Edits-rev_onto nothing s = subst (Edits _ _) (omega arith) s
Edits-rev_onto (keep e r) s = Edits-rev_onto r (keep e s)
Edits-rev_onto (replace {x = x} {y = y} r) s =
    subst (Edits _ _) (omega arith) (Edits-rev_onto r (replace {x = x} {y = y} s))
Edits-rev_onto (insert {y = y} r) s =
    subst (Edits _ _) (omega arith) (Edits-rev_onto r (insert {y = y} s))
Edits-rev_onto (delete {x = x} r) s =
    subst (Edits _ _) (omega arith) (Edits-rev_onto r (delete {x = x} s))

rev_onto-rev_onto : (a p q : Bytes) → rev_onto (rev_onto a p) q ≡ rev_onto p (a ++ q)
rev_onto-rev_onto [] p q = refl
rev_onto-rev_onto (x ∷ a) p q = rev_onto-rev_onto a (x ∷ p) q

rev_onto_twice : (a : Bytes) → rev_onto (rev_onto a []) [] ≡ a
rev_onto_twice a = rev_onto-rev_onto a [] [] ∙ append-nil a

Edits-reversed : {a b : Bytes} {n : ℕ} → Edits a b n → Edits (rev_onto a []) (rev_onto b []) n
Edits-reversed e = subst (Edits _ _) (omega arith) (Edits-rev_onto e nothing)

Edits-forward : (a b : Bytes) {n : ℕ} → Edits (rev_onto a []) (rev_onto b []) n → Edits a b n
Edits-forward a b {n} e = rw (sym (rev_onto_twice a), sym (rev_onto_twice b)) (Edits-reversed e)

-- For every two texts, and any number of replacements, insertions and deletions of one character that
-- turn one into the other, `distance` indexes no row out of bounds, and what it returns is such a
-- number as well and not greater.
pub distance-least :
    (a b : Bytes) {n : ℕ} → Edits a b n → (d : ℕ) × (distance a b ≡ some d) × Edits a b d × (d ≤ n)
distance-least a b e = (
  lev (rev_onto a []) (rev_onto b []),
  distance-eq-lev a b,
  Edits-forward a b (Edits-lev _ _),
  lev_least (Edits-reversed e),
)
