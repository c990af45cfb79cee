-- ===== src/Heuristics/Levenshtein/Typosquat.antt =====
-- The brand that `check_typosquat` reports is the nearest one.
use aegiuw.Prelude.{
  ltb, leb, Bool-cases, Bytes, any, map_option, unwrap_or, ℕ, ◌+◌, ◌≤◌, ◌<◌, ◌≡◌, refl, ap, ◌∙◌,
  subst, ◌⊎◌, inl, inr, Bool, true, false, ◌&&◌, Option, none, some, List, [], ◌∷◌, arith,
}
use aegiuw.Sni.Std.{eq_ignore_ascii_case}
use aegiuw.Risk.{typosquat}
use aegiuw.Heuristics.Levenshtein.{distance, improve, closest, check_typosquat}
use aegiuw.Heuristics.Levenshtein.Rows.{distance-eq-lev}

-- The edit distance, as a number.
unfoldable pub gap : Bytes → Bytes → ℕ
gap a b = unwrap_or 0 (distance a b)

distance-gap : (a b : Bytes) → distance a b ≡ some (gap a b)
unfolding gap
distance-gap a b = rw (distance-eq-lev a b) refl

-- Some brand is the domain itself, but for case.
abbrev pub is_brand : Bytes → List Bytes → Bool
is_brand domain brands = any (eq_ignore_ascii_case domain) brands

-- Every brand is `n` edits away at least, if it is not the domain itself.
abbrev pub AllBeyond : Bytes → ℕ → List Bytes → Type 0
AllBeyond domain n [] = Unit
AllBeyond domain n (b ∷ bs) = ((gap domain b ≡ 0) ⊎ (n ≤ gap domain b)) × AllBeyond domain n bs

-- The brand stands in the list.
abbrev pub Has : Bytes → List Bytes → Type 0
Has b [] = ⊥
Has b (x ∷ xs) = (x ≡ b) ⊎ Has b xs

-- What a brand has to be under for it to be better than the best so far.
bound : ℕ → Option (ℕ × Bytes) → ℕ
bound m none = m + 1
bound m (some (d, b)) = d

-- The brand is `d` edits away, and not more than `m`.
abbrev pub IsNear : Bytes → ℕ → Bytes → ℕ → Type 0
IsNear domain m b d = (gap domain b ≡ d) × (0 < d) × (d ≤ m)

-- What is known of the best after some brands.
record Tracks (domain : Bytes) (m : ℕ) (brands : List Bytes) (best r : Option (ℕ × Bytes))
    : Type 0 where
  no_worse : bound m r ≤ bound m best
  beyond : AllBeyond domain (bound m r) brands
  from :
      (r ≡ best) ⊎ ((b : Bytes) × (d : ℕ) × (r ≡ some (d, b)) × Has b brands × IsNear domain m b d)

record Improves (domain : Bytes) (m : ℕ) (b : Bytes) (best r : Option (ℕ × Bytes)) : Type 0 where
  no_worse : bound m r ≤ bound m best
  beyond : (gap domain b ≡ 0) ⊎ (bound m r ≤ gap domain b)
  from : (r ≡ best) ⊎ ((r ≡ some (gap domain b, b)) × IsNear domain m b (gap domain b))

improve-Improves :
    (domain : Bytes) (m : ℕ) (b : Bytes) (best : Option (ℕ × Bytes))
    → bound m best ≤ m + 1
    → Improves domain m b best (improve m (gap domain b) b best)
unfolding improve bound
improve-Improves domain m b none h =
    elim (Bool-cases (ltb 0 (gap domain b) && leb (gap domain b) m)) [
      | inl y ↦ rw y (record {
        no_worse = ground arith;
        beyond = inr (omega arith);
        from = inr (refl, (refl, ground arith, ground arith));
      })
      | inr n ↦ rw n (record { no_worse = omega arith; beyond = ground arith; from = inl refl })
    ]
improve-Improves domain m b (some (d, c)) h =
    elim (Bool-cases (ltb 0 (gap domain b) && leb (gap domain b) m)) [
      | inl y ↦ rw y (elim (Bool-cases (leb d (gap domain b))) [
        | inl z ↦ rw z (record { no_worse = omega arith; beyond = ground arith; from = inl refl })
        | inr k ↦ rw k (record {
          no_worse = ground arith;
          beyond = inr (omega arith);
          from = inr (refl, (refl, ground arith, ground arith));
        })
      ])
      | inr n ↦ rw n (record { no_worse = omega arith; beyond = ground arith; from = inl refl })
    ]

closest-cons :
    (domain : Bytes) (m : ℕ) (b : Bytes) (bs : List Bytes) (best : Option (ℕ × Bytes))
    → eq_ignore_ascii_case domain b ≡ false
    → closest domain m (b ∷ bs) best ≡ closest domain m bs (improve m (gap domain b) b best)
unfolding closest
closest-cons domain m b bs best n = rw (n, distance-gap domain b) refl

AllBeyond-le :
    (domain : Bytes) (n k : ℕ) (bs : List Bytes)
    → n ≤ k
    → AllBeyond domain k bs
    → AllBeyond domain n bs
AllBeyond-le domain n k [] h a = tt
AllBeyond-le domain n k (b ∷ bs) h (inl e, a) = (inl e, AllBeyond-le domain n k bs h a)
AllBeyond-le domain n k (b ∷ bs) h (inr l, a) = (inr (omega arith), AllBeyond-le domain n k bs h a)

-- One brand more in front.
Tracks-cons :
    (domain : Bytes) (m : ℕ) (b : Bytes) (bs : List Bytes) (best mid r : Option (ℕ × Bytes))
    → Improves domain m b best mid
    → Tracks domain m bs mid r
    → Tracks domain m (b ∷ bs) best r
Tracks-cons domain m b bs best mid r i t = record {
  no_worse = omega (arith, i.no_worse, t.no_worse);
  beyond = (near i.beyond, t.beyond);
  from = came t.from i.from;
}
  where
    near :
        (gap domain b ≡ 0) ⊎ (bound m mid ≤ gap domain b)
        → (gap domain b ≡ 0) ⊎ (bound m r ≤ gap domain b)
    near (inl e) = inl e
    near (inr l) = inr (omega (arith, t.no_worse))

    came :
        (r ≡ mid) ⊎ ((c : Bytes) × (d : ℕ) × (r ≡ some (d, c)) × Has c bs × IsNear domain m c d)
        → (mid ≡ best) ⊎ ((mid ≡ some (gap domain b, b)) × IsNear domain m b (gap domain b))
        → (r ≡ best)
          ⊎ ((c : Bytes) × (d : ℕ) × (r ≡ some (d, c)) × Has c (b ∷ bs) × IsNear domain m c d)
    came (inr (c, d, e, h, n)) _ = inr (c, d, e, inr h, n)
    came (inl e) (inl f) = inl (e ∙ f)
    came (inl e) (inr (f, n)) = inr (b, gap domain b, e ∙ f, inl refl, n)

closest-Tracks :
    (domain : Bytes) (m : ℕ) (bs : List Bytes) (best : Option (ℕ × Bytes))
    → bound m best ≤ m + 1
    → ((is_brand domain bs ≡ true) × (closest domain m bs best ≡ none))
      ⊎ ((is_brand domain bs ≡ false)
          × ((r : Option (ℕ × Bytes)) × (closest domain m bs best ≡ some r)
              × Tracks domain m bs best r))
unfolding closest
closest-Tracks domain m [] best h =
    inr (refl, (best, refl, record { no_worse = omega arith; beyond = tt; from = inl refl }))
closest-Tracks domain m (b ∷ bs) best h = elim (Bool-cases (eq_ignore_ascii_case domain b)) [
  | inl y ↦ inl (rw y refl, rw y refl)
  | inr n ↦
      let i = improve-Improves domain m b best h in
      let rest =
        closest-Tracks domain m bs (improve m (gap domain b) b best) (omega (arith, i.no_worse)) in
      let step = closest-cons domain m b bs best n in
      elim rest [
        | inl (y, e) ↦ inl (rw n y, step ∙ e)
        | inr (z, (r, e, t)) ↦ inr (rw n z, (r, step ∙ e, Tracks-cons domain m b bs best _ r i t))
      ]
]

-- The three ways in which a domain is assessed: it is a brand; every brand is far; one is near.
abbrev pub Legitimate : Bytes → List Bytes → ℕ → Type 0
Legitimate domain brands m =
    (is_brand domain brands ≡ true) × (check_typosquat domain brands m ≡ none)

abbrev pub Far : Bytes → List Bytes → ℕ → Type 0
Far domain brands m =
    (is_brand domain brands ≡ false)
    × AllBeyond domain (m + 1) brands
    × (check_typosquat domain brands m ≡ none)

abbrev pub Flagged : Bytes → List Bytes → ℕ → Type 0
Flagged domain brands m =
    (is_brand domain brands ≡ false)
    × ((b : Bytes) × (d : ℕ) × Has b brands
        × IsNear domain m b d
        × AllBeyond domain d brands
        × (check_typosquat domain brands m ≡ some (typosquat domain b d)))

Tracks-cases :
    (domain : Bytes) (brands : List Bytes) (m : ℕ)
    → is_brand domain brands ≡ false
    → (r : Option (ℕ × Bytes)) → closest domain m brands none ≡ some r
    → Tracks domain m brands none r
    → Far domain brands m ⊎ Flagged domain brands m
unfolding check_typosquat bound
Tracks-cases domain brands m z none e t = inl (z, t.beyond, rw e refl)
Tracks-cases domain brands m z (some (d, b)) e t = elim (t.from) [
  | inl q ↦ absurd (cc)
  | inr (c, k, q, h, n) ↦ inr (
    z,
    (
      c,
      k,
      h,
      n,
      subst (λ x. AllBeyond domain (bound m x) brands) q t.beyond,
      rw e (ap (map_option (λ (d, brand). typosquat domain brand d)) q),
    ),
  )
]

-- What `check_typosquat` returns, in each case: nothing for a domain that is one of the brands but for
-- case; nothing where every brand is at distance 0 or farther than the maximum; and else a brand of
-- the list within the maximum, such that no brand at another distance than 0 is nearer.
pub check_typosquat_cases :
    (domain : Bytes) (brands : List Bytes) (max_distance : ℕ)
    → Legitimate domain brands max_distance
      ⊎ Far domain brands max_distance
      ⊎ Flagged domain brands max_distance
unfolding check_typosquat bound
check_typosquat_cases domain brands m = elim (closest-Tracks domain m brands none (omega arith)) [
  | inl (y, e) ↦ inl (y, rw e refl)
  | inr (z, (r, e, t)) ↦ inr (Tracks-cases domain brands m z r e t)
]
