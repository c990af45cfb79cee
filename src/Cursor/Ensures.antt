-- ===== src/Cursor/Ensures.antt =====
-- What a reader's result satisfies wherever the reader succeeds.
use aegiuw.Prelude.{
  leb, if◌then◌else◌, leb→le, Bytes, length, take, drop, length-take, length-drop, bind-eq-some,
  when-eq-some, ℕ, ◌+◌, ◌≡◌, refl, sym, ap, ◌∙◌, subst, Bool, true, false, Option, none, some,
  some-injective, arith,
}
use aegiuw.Cursor.{read_slice, Reader, Cursor, ◌>>=◌, guard, pure, lift}

abbrev pub Ensures {ℓ κ} : {A : Type ℓ} → (A → Type κ) → Reader A → Type (ℓ ⊔ κ)
Ensures {A} P r = (c : Cursor) (a : A) (c' : Cursor) → r c ≡ some (a, c') → P a

module _ {ℓ κ ι} {A : Type ℓ} {B : Type κ} (P : B → Type ι) where
  -- What the first reader returns is passed on with all that is known of it.
  pub >>=-Ensures :
      (m : Reader A) (f : A → Reader B)
      → ((a : A) (c c' : Cursor) → m c ≡ some (a, c') → Ensures P (f a))
      → Ensures P (m >>= f)
  >>=-Ensures m f h c b c' e =
      let ((a, d), p, q) = bind-eq-some (m c) (λ (a, d). f a d) e in h a c d p d b c' q

module _ {ℓ κ} {A : Type ℓ} (P : A → Type κ) where
  pub guard-Ensures :
      (t : Bool) (r : Reader A) → (t ≡ true → Ensures P r) → Ensures P (guard t >>= λ _. r)
  guard-Ensures true r h c a c' e = h refl c a c' e
  guard-Ensures false r h c a c' e = absurd (cc e)

  pub if-Ensures :
      (t : Bool) (x y : Reader A)
      → Ensures P x
      → Ensures P y
      → Ensures P (λ c. (if t then x else y) c)
  if-Ensures true x y h k = h
  if-Ensures false x y h k = k

  pub pure-Ensures : (a : A) → P a → Ensures P (pure a)
  pure-Ensures a p c b c' e = subst P (ap (λ v. v.0) (some-injective _ _ e)) p

  pub lift-Ensures : (o : Option A) → ((a : A) → o ≡ some a → P a) → Ensures P (lift o)
  lift-Ensures none h c b c' e = absurd (cc e)
  lift-Ensures (some a) h c b c' e = subst P (ap (λ v. v.0) (some-injective _ _ e)) (h a refl)

-- A slice has the length that was asked for.
pub read_slice-length :
    (n : ℕ) (c : Cursor) (s : Bytes) (c' : Cursor) → read_slice n c ≡ some (s, c') → length s ≡ n
unfolding read_slice
read_slice-length n c s c' e =
    let (le, p) = when-eq-some (leb (c.pos + n) (length c.bytes)) _ e in
    let size : length (take n (drop c.pos c.bytes)) ≡ n = omega (
      arith,
      length-take n (drop c.pos c.bytes),
      length-drop c.pos c.bytes,
      leb→le (c.pos + n) (length c.bytes) le,
    ) in
    ap (λ v. length v.0) (sym (some-injective _ _ p)) ∙ size

pub guard-eq-some {ℓ} :
    {A : Type ℓ} (t : Bool) (k : Reader A) (c : Cursor) {v : A × Cursor}
    → (guard t >>= λ _. k) c ≡ some v
    → (t ≡ true) × (k c ≡ some v)
guard-eq-some true k c e = (refl, e)
guard-eq-some false k c e = cc
