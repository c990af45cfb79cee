-- ===== src/Fingerprint/Join.antt =====
-- Lists of numbers between separators, and how such a text is taken apart again.
use aegiuw.Prelude.{
  ◌==◌, if◌then◌else◌, ==_refl, Bytes, is_empty, all, all-append, ℕ, ◌≡◌, refl, ap, true, false,
  not, List, [], ◌∷◌, ◌++◌, map, append-nil, arith,
}
use aegiuw.Sni.Std.{is_digit, attach}
use aegiuw.Fingerprint.{decimal}
use aegiuw.Fingerprint.Decimal.{value, value-decimal, digits-decimal}

-- Each number with the separator in front; and the numbers with the separator between them.
unfoldable pub join_rest : ℕ → List ℕ → Bytes
join_rest sep [] = []
join_rest sep (v ∷ vs) = sep ∷ (decimal v ++ join_rest sep vs)

unfoldable pub join : ℕ → List ℕ → Bytes
join sep [] = []
join sep (v ∷ vs) = decimal v ++ join_rest sep vs

unfoldable pub split_on : ℕ → Bytes → List Bytes
split_on sep [] = [] ∷ []
split_on sep (b ∷ s) = let rest = split_on sep s in if b == sep then [] ∷ rest else attach b rest

abbrev pub Avoids : ℕ → Bytes → Type 0
Avoids sep s = all (λ b. not (b == sep)) s ≡ true

pub split_on-Avoids : (sep : ℕ) (s : Bytes) → Avoids sep s → split_on sep s ≡ s ∷ []
unfolding split_on
split_on-Avoids sep [] h = refl
split_on-Avoids sep (b ∷ s) h =
    let here : (b == sep) ≡ false = ground arith in
    rw (here, split_on-Avoids sep s (ground arith)) refl

pub split_on-append :
    (sep : ℕ) (s t : Bytes) → Avoids sep s → split_on sep (s ++ sep ∷ t) ≡ s ∷ split_on sep t
unfolding split_on
split_on-append sep [] t h = rw (==_refl sep) refl
split_on-append sep (b ∷ s) t h =
    let here : (b == sep) ≡ false = ground arith in
    rw (here, split_on-append sep s t (ground arith)) refl

-- A digit is no separator.
Avoids-digits : (sep : ℕ) (s : Bytes) → is_digit sep ≡ false → all is_digit s ≡ true → Avoids sep s
Avoids-digits sep [] n h = refl
Avoids-digits sep (b ∷ s) n h = ground (arith, Avoids-digits sep s n)

Avoids-decimal : (sep n : ℕ) → is_digit sep ≡ false → Avoids sep (decimal n)
Avoids-decimal sep n h = Avoids-digits sep (decimal n) h (digits-decimal n).0

-- The digits of numbers with `sep` between them hold no other separator.
Avoids-join_rest :
    (other sep : ℕ) (vs : List ℕ)
    → is_digit other ≡ false
    → (sep == other) ≡ false
    → Avoids other (join_rest sep vs)
unfolding join_rest
Avoids-join_rest other sep [] d n = refl
Avoids-join_rest other sep (v ∷ vs) d n =
    rw
      (
        n,
        all-append (λ b. not (b == other)) (decimal v) (join_rest sep vs),
        Avoids-decimal other v d,
      )
      (Avoids-join_rest other sep vs d n)

pub Avoids-join :
    (other sep : ℕ) (vs : List ℕ)
    → is_digit other ≡ false
    → (sep == other) ≡ false
    → Avoids other (join sep vs)
unfolding join
Avoids-join other sep [] d n = refl
Avoids-join other sep (v ∷ vs) d n =
    rw (all-append (λ b. not (b == other)) (decimal v) (join_rest sep vs), Avoids-decimal other v d)
      (Avoids-join_rest other sep vs d n)

split_on-join :
    (sep v : ℕ) (vs : List ℕ)
    → is_digit sep ≡ false
    → map (value 0) (split_on sep (join sep (v ∷ vs))) ≡ v ∷ vs
unfolding join join_rest
split_on-join sep v [] d =
    rw (append-nil (decimal v), split_on-Avoids sep (decimal v) (Avoids-decimal sep v d))
      (ap (λ n. n ∷ []) (value-decimal v))
split_on-join sep v (w ∷ vs) d =
    rw
      (
        split_on-append sep (decimal v) (join sep (w ∷ vs)) (Avoids-decimal sep v d),
        value-decimal v,
      )
      (ap (λ r. v ∷ r) (split_on-join sep w vs d))

-- The numbers of a text; an empty text is an empty list.
unfoldable pub read_numbers : ℕ → Bytes → List ℕ
unfolding split_on
read_numbers sep s = if is_empty s then [] else map (value 0) (split_on sep s)

is_empty-append : (s t : Bytes) → is_empty s ≡ false → is_empty (s ++ t) ≡ false
is_empty-append [] t h = absurd (cc)
is_empty-append (b ∷ s) t h = refl

-- Numbers between separators are read back.
pub read_numbers-join :
    (sep : ℕ) (vs : List ℕ) → is_digit sep ≡ false → read_numbers sep (join sep vs) ≡ vs
unfolding read_numbers
read_numbers-join sep [] d = unfold join in refl
read_numbers-join sep (v ∷ vs) d =
    let filled : is_empty (join sep (v ∷ vs)) ≡ false =
      unfold join in is_empty-append (decimal v) (join_rest sep vs) (digits-decimal v).1 in
    rw filled (split_on-join sep v vs d)
