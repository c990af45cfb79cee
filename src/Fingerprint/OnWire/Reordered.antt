-- ===== src/Fingerprint/OnWire/Reordered.antt =====
-- What a fold over extensions of distinct types keeps when they come in another order.
use mathlib.Core.List.{Permᴰ}
use aegiuw.Prelude.{
  ◌==◌, if◌then◌else◌, Bool-cases, Bytes, bind-eq-some, ℕ, ◌≡◌, refl, sym, ap, ◌∙◌, subst, inl, inr,
  false, some, some-injective, List, [], ◌∷◌, arith,
}
use aegiuw.Sni.Handshake.{Scan, contains}
use aegiuw.Sni.Handshake.Invariant.{Distinct}
use aegiuw.Sni.Handshake.Scanning.{scan_one, scan_list}
use aegiuw.Fingerprint.OnWire.Types.{types_of}

pub contains-Permᴰ : (t : ℕ) {xs ys : List ℕ} → Permᴰ xs ys → contains t xs ≡ contains t ys
contains-Permᴰ t Permᴰ.nil = refl
contains-Permᴰ t (Permᴰ.cons {a} {b} {l₁} {l₂} e d) = rw (e, contains-Permᴰ t d) refl
contains-Permᴰ t (Permᴰ.swap {a} {b} {a'} {b'} {l} e f) = rw (e, f) (ground arith)
contains-Permᴰ t (Permᴰ.trans d e) = contains-Permᴰ t d ∙ contains-Permᴰ t e

Distinct-swap : (a b : ℕ) (l : List ℕ) → Distinct (a ∷ b ∷ l) → Distinct (b ∷ a ∷ l)
Distinct-swap a b l (h, (g, k)) = (ground arith, (ground arith, k))

pub Distinct-Permᴰ : {xs ys : List ℕ} → Permᴰ xs ys → Distinct xs → Distinct ys
Distinct-Permᴰ Permᴰ.nil k = tt
Distinct-Permᴰ (Permᴰ.cons {a} {b} {l₁} {l₂} e d) (h, k) =
    (ap (λ x. contains x l₂) (sym e) ∙ sym (contains-Permᴰ a d) ∙ h, Distinct-Permᴰ d k)
Distinct-Permᴰ (Permᴰ.swap {a} {b} {a'} {b'} {l} e f) k =
    subst (λ x. Distinct (x ∷ b' ∷ l)) f
      (subst (λ x. Distinct (b ∷ x ∷ l)) e (Distinct-swap a b l k))
Distinct-Permᴰ (Permᴰ.trans d e) k = Distinct-Permᴰ e (Distinct-Permᴰ d k)

pub types_of-Permᴰ : {es es' : List (ℕ × Bytes)} → Permᴰ es es' → Permᴰ (types_of es) (types_of es')
types_of-Permᴰ Permᴰ.nil = Permᴰ.nil
types_of-Permᴰ (Permᴰ.cons e d) = Permᴰ.cons (ap (λ p. p.0) e) (types_of-Permᴰ d)
types_of-Permᴰ (Permᴰ.swap e f) = Permᴰ.swap (ap (λ p. p.0) e) (ap (λ p. p.0) f)
types_of-Permᴰ (Permᴰ.trans d e) = Permᴰ.trans (types_of-Permᴰ d) (types_of-Permᴰ e)

module _ {ℓ} {A : Type ℓ} (key : ℕ) (after : Bytes → A → A) where
  -- What the extensions of one type make of a value.
  abbrev pub step : ℕ × Bytes → A → A
  step e o = if e.0 == key then after e.1 o else o

  pub value_of : A → List (ℕ × Bytes) → A
  value_of o [] = o
  value_of o (e ∷ es) = value_of (step e o) es

  step_comm :
      (x y : ℕ × Bytes) (o : A) → (y.0 == x.0) ≡ false → step y (step x o) ≡ step x (step y o)
  step_comm x y o n = elim (Bool-cases (x.0 == key)) [
    | inl p ↦ let q : (y.0 == key) ≡ false = ground arith in rw (p, q) refl
    | inr p ↦ rw p refl
  ]

  -- An order of distinct types is as good as another.
  pub value_of-Permᴰ :
      {es es' : List (ℕ × Bytes)}
      → Permᴰ es es'
      → (o : A) → Distinct (types_of es)
      → value_of o es ≡ value_of o es'
  unfolding value_of
  value_of-Permᴰ Permᴰ.nil o k = refl
  value_of-Permᴰ (Permᴰ.cons {a} {b} {l₁} {l₂} e d) o (h, k) =
      value_of-Permᴰ d (step a o) k ∙ ap (λ x. value_of (step x o) l₂) e
  value_of-Permᴰ (Permᴰ.swap {a} {b} {a'} {b'} {l} e f) o (h, k) =
      let apart : (b.0 == a.0) ≡ false = ground arith in
      ap (λ v. value_of v l)
        (step_comm a b o apart ∙ ap (λ x. step x (step b o)) e ∙ ap (λ y. step b' (step y o)) f)
  value_of-Permᴰ (Permᴰ.trans d e) o k =
      value_of-Permᴰ d o k ∙ value_of-Permᴰ e o (Distinct-Permᴰ (types_of-Permᴰ d) k)

  -- A field that each extension changes by `step` holds what the fold gives.
  pub scan_list-value_of :
      (F : Scan → A)
      → ((s t : Scan) (e : ℕ × Bytes) → scan_one s e ≡ some t → F t ≡ step e (F s))
      → (es : List (ℕ × Bytes)) (s u : Scan) → scan_list s es ≡ some u
      → F u ≡ value_of (F s) es
  unfolding scan_list value_of
  scan_list-value_of F one [] s u e = ap F (sym (some-injective _ _ e))
  scan_list-value_of F one (x ∷ es) s u e =
      let (v, p, q) = bind-eq-some (scan_one s x) _ e in
      scan_list-value_of F one es v u q ∙ ap (λ o. value_of o es) (one s v x p)

  -- Such a field does not depend on the order of extensions of distinct types.
  pub scan_list-reordered :
      (F : Scan → A)
      → ((s t : Scan) (e : ℕ × Bytes) → scan_one s e ≡ some t → F t ≡ step e (F s))
      → (es es' : List (ℕ × Bytes)) (s s' u u' : Scan) → F s ≡ F s'
      → Permᴰ es es'
      → Distinct (types_of es)
      → scan_list s es ≡ some u
      → scan_list s' es' ≡ some u'
      → F u ≡ F u'
  scan_list-reordered F one es es' s s' u u' same q distinct e e' =
      scan_list-value_of F one es s u e
      ∙ value_of-Permᴰ q (F s) distinct
      ∙ ap (λ o. value_of o es') same
      ∙ sym (scan_list-value_of F one es' s' u' e')
