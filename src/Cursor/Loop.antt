-- ===== src/Cursor/Loop.antt =====
-- `while cursor.remaining() >= k { body }`, with fuel, and the readers' progress through the slice.
use aegiuw.Prelude.{
  leb, if◌then◌else◌, Bool-cases, Option-cases, bind, bind-eq-some, ℕ, zero, suc, ◌+◌, ◌≤◌, ◌<◌,
  ◌≡◌, refl, ◌∙◌, subst, inl, inr, Bool, true, false, Option, none, some, arith,
}
use aegiuw.Cursor.{
  Cursor, Reader, guard, pure, lift, be_u16, ◌>>=◌, remaining, read_u8, read_u16, read_slice,
  read_u8_prefixed, read_u16_prefixed,
}

-- Each round is a body that reads; the loop stops when fewer than `k` bytes are left.
unfoldable pub while_remaining {ℓ} : {S : Type ℓ} → ℕ → ℕ → (S → Reader S) → S → Reader S
while_remaining zero k body s c = none
while_remaining (suc fuel) k body s c =
    let rest = bind (body s c) (λ (t, c'). while_remaining fuel k body t c') in
    if leb k (remaining c) then rest else some (s, c)

-- The reader keeps the slice and moves at least `k` bytes.
abbrev pub Advances {ℓ} : {A : Type ℓ} → ℕ → Reader A → Type ℓ
Advances {A} k r =
    (c : Cursor) (a : A) (c' : Cursor)
    → r c ≡ some (a, c')
    → (c'.bytes ≡ c.bytes) × (c.pos + k ≤ c'.pos)

pub >>=-Advances {ℓ κ} :
    {A : Type ℓ} {B : Type κ} (j k : ℕ) (m : Reader A) (f : A → Reader B)
    → Advances j m
    → ((a : A) → Advances k (f a))
    → Advances (j + k) (m >>= f)
>>=-Advances j k m f hm hf c b c' e =
    let ((a, d), p, q) = bind-eq-some (m c) (λ (a, d). f a d) e in
    let (b1, p1) = hm c a d p in let (b2, p2) = hf a d b c' q in (b2 ∙ b1, omega arith)

pub read_u8-Advances : Advances 1 read_u8
unfolding read_u8
read_u8-Advances c a c' e = ground arith

pub read_slice-Advances : (n : ℕ) → Advances n (read_slice n)
unfolding read_slice
read_slice-Advances n c a c' e = ground arith

pub lift-Advances {ℓ} : {A : Type ℓ} (o : Option A) → Advances 0 (lift o)
lift-Advances (some x) c a c' e = ground arith
lift-Advances none c a c' e = absurd (cc)

pub guard-Advances : (b : Bool) → Advances 0 (guard b)
guard-Advances true c a c' e = ground arith
guard-Advances false c a c' e = absurd (cc)

pub pure-Advances {ℓ} : {A : Type ℓ} (a : A) → Advances 0 (pure a)
pure-Advances x c a c' e = ground arith

pub if-Advances {ℓ} :
    {A : Type ℓ} (k : ℕ) (t : Bool) (x y : Reader A)
    → Advances k x
    → Advances k y
    → Advances k (λ c. (if t then x else y) c)
if-Advances k true x y h g = h
if-Advances k false x y h g = g

pub read_u16-Advances : Advances 2 read_u16
unfolding read_u16
read_u16-Advances =
    >>=-Advances 2 0 (read_slice 2) _ (read_slice-Advances 2) (λ s. lift-Advances (be_u16 s))

pub read_slice-Advances_zero : (n : ℕ) → Advances 0 (read_slice n)
read_slice-Advances_zero n c a c' e =
    let (b, p) = read_slice-Advances n c a c' e in (b, omega arith)

pub read_u8_prefixed-Advances : Advances 1 read_u8_prefixed
unfolding read_u8_prefixed
read_u8_prefixed-Advances c a c' e =
    let (b, p) =
      >>=-Advances 1 0 read_u8 read_slice read_u8-Advances read_slice-Advances_zero c a c' e in
    (b, omega arith)

pub read_u16_prefixed-Advances : Advances 2 read_u16_prefixed
unfolding read_u16_prefixed
read_u16_prefixed-Advances =
    >>=-Advances 2 0 read_u16 read_slice read_u16-Advances read_slice-Advances_zero

pub remaining-lt :
    (c c' : Cursor)
    → (c'.bytes ≡ c.bytes) × (c.pos + 1 ≤ c'.pos)
    → 0 < remaining c
    → remaining c' < remaining c
unfolding remaining
remaining-lt c c' (b, p) h = rw b (omega arith)

module _ {ℓ} {S : Type ℓ} (k : ℕ) (body : S → Reader S) where
  -- Fuel above the number of bytes left is enough: more of it changes nothing.
  pub while_remaining_fuel :
      0 < k
      → ((s : S) → Advances 1 (body s))
      → (m n : ℕ) (s : S) (c : Cursor) → remaining c < m
      → remaining c < n
      → while_remaining m k body s c ≡ while_remaining n k body s c
  unfolding while_remaining
  while_remaining_fuel pos adv zero n s c h h' = absurd (omega arith)
  while_remaining_fuel pos adv (suc m) zero s c h h' = absurd (omega arith)
  while_remaining_fuel pos adv (suc m) (suc n) s c h h' = elim (Option-cases (body s c)) [
    | inl e ↦ rw e refl
    | inr ((t, c'), e) ↦
        rw e (
          ground (arith, while_remaining_fuel pos adv m n t c', remaining-lt c c' (adv s c t c' e)))
  ]

  -- An invariant of the body holds when the loop ends.
  pub while_remaining_inv {κ} :
      (P : S → Type κ)
      → ((s t : S) (c c' : Cursor) → P s → body s c ≡ some (t, c') → P t)
      → (fuel : ℕ) (s : S) (c : Cursor) (t : S) (c' : Cursor) → P s
      → while_remaining fuel k body s c ≡ some (t, c')
      → P t
  unfolding while_remaining
  while_remaining_inv P keep zero s c t c' h e = cc
  while_remaining_inv P keep (suc fuel) s c t c' h e = elim (Bool-cases (leb k (remaining c))) [
    | inl more ↦
        let ((u, d), p, q) = bind-eq-some (body s c) _ (rw more at e) in
        while_remaining_inv P keep fuel u d t c' (keep s u c d h p) q
    | inr stop ↦ subst P (cc (rw stop at e)) h
  ]
