-- ===== src/Cursor/Octets.antt =====
-- What the readers return from a slice of `u8`: numbers of two bytes are `u16`, slices are of `u8`.
use aegiuw.Prelude.{
  leb, if◌then◌else◌, leb→le, Bool-cases, Bytes, length, get_elem?, take, drop, AllOk, AreBelow,
  length-take, length-drop, bind-eq-some, map_option-eq-some, when-eq-some, ℕ, zero, suc, ◌+◌, ◌^◌,
  ◌<◌, ◌≡◌, refl, sym, ap, subst, inl, inr, Bool, true, false, Option, none, some, some-injective,
  List, [], ◌∷◌, ◌++◌, arith,
}
use aegiuw.Cursor.{
  Cursor, Reader, ◌>>=◌, guard, pure, lift, remaining, be_u16, be_u24, read_u8, read_u16, read_u24,
  read_slice, read_u8_prefixed, read_u16_prefixed,
}
use aegiuw.Cursor.Loop.{while_remaining}

abbrev pub AreOctets : Bytes → Type 0
AreOctets = AreBelow 256

pub AllOk-append {ℓ} :
    {A : Type ℓ} (P : A → Type 0) (xs ys : List A) → AllOk P xs → AllOk P ys → AllOk P (xs ++ ys)
AllOk-append P [] ys h g = g
AllOk-append P (x ∷ xs) ys h g = (h.0, AllOk-append P xs ys h.1 g)

pub AreBelow-take : (k n : ℕ) (xs : List ℕ) → AreBelow k xs → AreBelow k (take n xs)
AreBelow-take k zero xs h = tt
AreBelow-take k (suc n) [] h = tt
AreBelow-take k (suc n) (x ∷ xs) h = (h.0, AreBelow-take k n xs h.1)

AreBelow-drop : (k n : ℕ) (xs : List ℕ) → AreBelow k xs → AreBelow k (drop n xs)
AreBelow-drop k zero xs h = h
AreBelow-drop k (suc n) [] h = tt
AreBelow-drop k (suc n) (x ∷ xs) h = AreBelow-drop k n xs h.1

AreBelow-get :
    (k : ℕ) (xs : List ℕ) (i : ℕ) {x : ℕ} → AreBelow k xs → get_elem? xs i ≡ some x → x < k
AreBelow-get k [] i h e = absurd (cc)
AreBelow-get k (y ∷ xs) zero h e = subst (λ z. z < k) (some-injective _ _ e) h.0
AreBelow-get k (y ∷ xs) (suc i) h e = AreBelow-get k xs i h.1 e

-- On a slice of octets the reader stays on one, and what it returns satisfies the predicate.
abbrev pub Reads {ℓ κ} : {A : Type ℓ} → (A → Type κ) → Reader A → Type (ℓ ⊔ κ)
Reads {A} P r =
    (c : Cursor) (a : A) (c' : Cursor)
    → AreOctets c.bytes
    → r c ≡ some (a, c')
    → AreOctets c'.bytes × P a

pub >>=-Reads {ℓ κ ι ν} :
    {A : Type ℓ} {B : Type κ} (P : A → Type ι) (Q : B → Type ν) (m : Reader A) (f : A → Reader B)
    → Reads P m
    → ((a : A) → P a → Reads Q (f a))
    → Reads Q (m >>= f)
>>=-Reads P Q m f hm hf c b c' o e =
    let ((a, d), p, q) = bind-eq-some (m c) (λ (a, d). f a d) e in
    let (o', k) = hm c a d o p in hf a k d b c' o' q

module _ {ℓ κ} {A : Type ℓ} (P : A → Type κ) where
  pub guard-Reads :
      (t : Bool) (r : Reader A) → (t ≡ true → Reads P r) → Reads P (guard t >>= λ _. r)
  guard-Reads true r h c a c' o e = h refl c a c' o e
  guard-Reads false r h c a c' o e = absurd (cc e)

  pub if-Reads :
      (t : Bool) (x y : Reader A) → Reads P x → Reads P y → Reads P (λ c. (if t then x else y) c)
  if-Reads true x y h k = h
  if-Reads false x y h k = k

  pub pure-Reads : (a : A) → P a → Reads P (pure a)
  pure-Reads a p c b c' o e =
      let same = some-injective _ _ e in
      (subst (λ d. AreOctets d.bytes) (ap (λ v. v.1) same) o, subst P (ap (λ v. v.0) same) p)

  pub lift-Reads : (x : Option A) → ((a : A) → x ≡ some a → P a) → Reads P (lift x)
  lift-Reads none h c b c' o e = absurd (cc e)
  lift-Reads (some a) h c b c' o e = pure-Reads a (h a refl) c b c' o e

-- A loop over the slice keeps what each round keeps.
pub while_remaining-Reads {ℓ κ} :
    {S : Type ℓ} (P : S → Type κ) (k : ℕ) (body : S → Reader S)
    → ((s : S) → P s → Reads P (body s))
    → (fuel : ℕ) (s : S) → P s
    → Reads P (while_remaining fuel k body s)
unfolding while_remaining
while_remaining-Reads P k body keep zero s p c t c' o e = absurd (cc)
while_remaining-Reads P k body keep (suc fuel) s p c t c' o e =
    elim (Bool-cases (leb k (remaining c))) [
      | inl more ↦
          let ((u, d), x, y) = bind-eq-some (body s c) _ (rw more at e) in
          let (o', q) = keep s p c u d o x in
          while_remaining-Reads P k body keep fuel u q d t c' o' y
      | inr stop ↦ pure-Reads P s p c t c' o (rw stop at e)
    ]

pub read_u8-Reads : Reads (λ x. x < 256) read_u8
unfolding read_u8
read_u8-Reads c a c' o e =
    let (b, p, q) = map_option-eq-some _ (get_elem? c.bytes c.pos) e in
    (
      subst (λ v. AreOctets v.1.bytes) q o,
      subst (λ v. v.0 < 256) q (AreBelow-get 256 c.bytes c.pos o p),
    )

pub read_slice-Reads : (n : ℕ) → Reads (λ s. AreOctets s × (length s ≡ n)) (read_slice n)
unfolding read_slice
read_slice-Reads n c a c' o e =
    let (le, p) = when-eq-some (leb (c.pos + n) (length c.bytes)) _ e in
    let same = some-injective _ _ p in
    let whole : AreOctets (take n (drop c.pos c.bytes)) =
      AreBelow-take 256 n (drop c.pos c.bytes) (AreBelow-drop 256 c.pos c.bytes o) in
    let size : length (take n (drop c.pos c.bytes)) ≡ n = omega (
      arith,
      length-take n (drop c.pos c.bytes),
      length-drop c.pos c.bytes,
      leb→le (c.pos + n) (length c.bytes) le,
    ) in
    (
      subst (λ v. AreOctets v.1.bytes) same o,
      (subst (λ v. AreOctets v.0) same whole, subst (λ v. length v.0 ≡ n) same size),
    )

be_u16-lt : (s : Bytes) {n : ℕ} → AreOctets s → be_u16 s ≡ some n → n < 65536
be_u16-lt [] o e = absurd (cc)
be_u16-lt (a ∷ []) o e = absurd (cc)
be_u16-lt (a ∷ b ∷ []) o e = subst (λ n. n < 65536) (some-injective _ _ e) (omega arith)
be_u16-lt (a ∷ b ∷ c ∷ s) o e = absurd (cc)

pub read_u16-Reads : Reads (λ x. x < 65536) read_u16
unfolding read_u16
read_u16-Reads =
    >>=-Reads _ (λ x. x < 65536) (read_slice 2) _ (read_slice-Reads 2)
      λ s k. lift-Reads (λ x. x < 65536) (be_u16 s) λ n. be_u16-lt s k.0

be_u24-lt : (s : Bytes) {n : ℕ} → AreOctets s → be_u24 s ≡ some n → n < 2 ^ 24
be_u24-lt [] o e = absurd (cc)
be_u24-lt (a ∷ []) o e = absurd (cc)
be_u24-lt (a ∷ b ∷ []) o e = absurd (cc)
be_u24-lt (a ∷ b ∷ c ∷ []) o e = subst (λ n. n < 2 ^ 24) (some-injective _ _ e) (omega arith)
be_u24-lt (a ∷ b ∷ c ∷ d ∷ s) o e = absurd (cc)

pub read_u24-Reads : Reads (λ x. x < 2 ^ 24) read_u24
unfolding read_u24
read_u24-Reads =
    >>=-Reads _ (λ x. x < 2 ^ 24) (read_slice 3) _ (read_slice-Reads 3)
      λ s k. lift-Reads (λ x. x < 2 ^ 24) (be_u24 s) λ n. be_u24-lt s k.0

pub read_u8_prefixed-Reads : Reads (λ s. AreOctets s × (length s < 256)) read_u8_prefixed
unfolding read_u8_prefixed
read_u8_prefixed-Reads =
    >>=-Reads _ (λ s. AreOctets s × (length s < 256)) read_u8 read_slice read_u8-Reads
      λ n k c a c' o e.
        let (o', p) = read_slice-Reads n c a c' o e in (o', (p.0, subst (λ m. m < 256) (sym p.1) k))

pub read_u16_prefixed-Reads : Reads (λ s. AreOctets s × (length s < 65536)) read_u16_prefixed
unfolding read_u16_prefixed
read_u16_prefixed-Reads =
    >>=-Reads _ (λ s. AreOctets s × (length s < 65536)) read_u16 read_slice read_u16-Reads
      λ n k c a c' o e.
        let (o', p) = read_slice-Reads n c a c' o e in
        (o', (p.0, subst (λ m. m < 65536) (sym p.1) k))
