-- ===== src/Heuristics/Levenshtein/Rows.antt =====
-- The two rolling rows hold the values of a recursion over reversed prefixes.
use aegiuw.Prelude.{
  Bytes, length, get_elem?, ℕ, suc, ◌+◌, min, ◌≡◌, refl, ap, ◌∙◌, some, List, [], ◌∷◌, arith,
}
use aegiuw.Heuristics.Levenshtein.{
  substitution_cost, row_cells, next_row, rows, range_from, distance,
}

-- The recursion of Wagner and Fischer.
unfoldable pub lev : Bytes → Bytes → ℕ
lev [] q = length q
lev (x ∷ p) [] = suc (length p)
lev (x ∷ p) (y ∷ q) =
    min (min (lev p (y ∷ q) + 1) (lev (x ∷ p) q + 1)) (lev p q + substitution_cost x y)

pub lev-nil : (p : Bytes) → lev p [] ≡ length p
unfolding lev
lev-nil [] = refl
lev-nil (x ∷ p) = refl

-- `xs` reversed onto `acc`.
abbrev pub rev_onto : Bytes → Bytes → Bytes
rev_onto [] acc = acc
rev_onto (x ∷ xs) acc = rev_onto xs (x ∷ acc)

-- The row of the prefix `p`, from the cell of `q` on, over what is left of `b`; and its tail.
row_tail : Bytes → Bytes → Bytes → List ℕ
row_tail p q [] = []
row_tail p q (y ∷ b) = lev p (y ∷ q) ∷ row_tail p (y ∷ q) b

abbrev row : Bytes → Bytes → Bytes → List ℕ
row p q b = lev p q ∷ row_tail p q b

row_cells-row_tail :
    (ca : ℕ) (p q b : Bytes)
    → row_cells ca b (lev p q) (row_tail p q b) (lev (ca ∷ p) q) ≡ row_tail (ca ∷ p) q b
unfolding row_cells row_tail lev
row_cells-row_tail ca p q [] = refl
row_cells-row_tail ca p q (y ∷ b) =
    ap (λ t. lev (ca ∷ p) (y ∷ q) ∷ t) (row_cells-row_tail ca p (y ∷ q) b)

next_row_head : (ca i : ℕ) (p : Bytes) → i ≡ length p → i + 1 ≡ lev (ca ∷ p) []
unfolding lev
next_row_head ca i p e = omega arith

next_row-row :
    (ca i : ℕ) (p b : Bytes) → i ≡ length p → next_row i ca b (row p [] b) ≡ row (ca ∷ p) [] b
unfolding next_row
next_row-row ca i p b e =
    ap (λ n. n ∷ row_cells ca b (lev p []) (row_tail p [] b) n) (next_row_head ca i p e)
    ∙ ap (λ t. lev (ca ∷ p) [] ∷ t) (row_cells-row_tail ca p [] b)

rows-row :
    (i : ℕ) (a p b : Bytes) → i ≡ length p → rows i a b (row p [] b) ≡ row (rev_onto a p) [] b
unfolding rows
rows-row i [] p b e = refl
rows-row i (ca ∷ a) p b e =
    rw (next_row-row ca i p b e) (rows-row (i + 1) a (ca ∷ p) b (omega arith))

range_from-row : (q b : Bytes) (i : ℕ) → i ≡ length q → range_from i (length b) ≡ row [] q b
unfolding range_from row_tail lev
range_from-row q [] i e = ap (λ n. n ∷ []) e
range_from-row q (y ∷ b) i e =
    ap (λ n. n ∷ range_from (i + 1) (length b)) e
    ∙ ap (λ t. length q ∷ t) (range_from-row (y ∷ q) b (i + 1) (omega arith))

get_elem?-row : (p q b : Bytes) → get_elem? (row p q b) (length b) ≡ some (lev p (rev_onto b q))
unfolding row_tail
get_elem?-row p q [] = refl
get_elem?-row p q (y ∷ b) = get_elem?-row p (y ∷ q) b

length-rev_onto : (xs acc : Bytes) → length (rev_onto xs acc) ≡ length xs + length acc
length-rev_onto [] acc = omega arith
length-rev_onto (x ∷ xs) acc = omega (arith, length-rev_onto xs (x ∷ acc))

-- The rows never run out, and the last cell is the recursion's value on the reversed texts.
pub distance-eq-lev : (a b : Bytes) → distance a b ≡ some (lev (rev_onto a []) (rev_onto b []))
unfolding distance
distance-eq-lev [] b = unfold lev in ap some (omega (arith, length-rev_onto b []))
distance-eq-lev (x ∷ a) [] =
    ap some (omega (arith, length-rev_onto (x ∷ a) [], lev-nil (rev_onto (x ∷ a) [])))
distance-eq-lev (x ∷ a) (y ∷ b) =
    ap (λ r. get_elem? (rows 0 (x ∷ a) (y ∷ b) r) (length (y ∷ b)))
      (range_from-row [] (y ∷ b) 0 refl)
    ∙ ap (λ r. get_elem? r (length (y ∷ b))) (rows-row 0 (x ∷ a) [] (y ∷ b) refl)
    ∙ get_elem?-row (rev_onto (x ∷ a) []) [] (y ∷ b)
