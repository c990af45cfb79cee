-- ===== src/Cursor/Stable.antt =====
-- A reader that succeeded gives the same when bytes are appended to its slice.
use aegiuw.Prelude.{
  leb, if◌then◌else◌, le→leb, leb→le, Bytes, length, get_elem?, drop, length-append, length-drop,
  take-append_le, map_option, bind-eq-some, map_option-eq-some, when-eq-some, ℕ, zero, suc, ◌+◌,
  ◌≤◌, ◌≡◌, refl, ap, Bool, true, false, Option, none, some, [], ◌∷◌, ◌++◌, arith,
}
use aegiuw.Cursor.{
  Cursor, Reader, read_u8, read_u16, read_u24, read_slice, read_u8_prefixed, read_u16_prefixed,
  ◌>>=◌, guard, pure, lift, be_u16, be_u24,
}

-- The same place in a longer slice.
abbrev pub extend : Bytes → Cursor → Cursor
extend more c = record { bytes = c.bytes ++ more; pos = c.pos }

abbrev pub Stable {ℓ} : {A : Type ℓ} → Reader A → Type ℓ
Stable {A} r =
    (more : Bytes) (c : Cursor) (a : A) (c' : Cursor)
    → r c ≡ some (a, c')
    → r (extend more c) ≡ some (a, extend more c')

pub >>=-Stable {ℓ κ} :
    {A : Type ℓ} {B : Type κ} (m : Reader A) (f : A → Reader B)
    → Stable m
    → ((a : A) → Stable (f a))
    → Stable (m >>= f)
>>=-Stable m f hm hf more c b c' e =
    let ((a, d), p, q) = bind-eq-some (m c) (λ (a, d). f a d) e in
    rw (hm more c a d p) (hf a more d b c' q)

pub guard-Stable : (t : Bool) → Stable (guard t)
guard-Stable true more c a c' e = ap (map_option (λ (a, d). (a, extend more d))) e
guard-Stable false more c a c' e = absurd (cc)

pub pure-Stable {ℓ} : {A : Type ℓ} (a : A) → Stable (pure a)
pure-Stable x more c a c' e = ap (map_option (λ (a, d). (a, extend more d))) e

pub lift-Stable {ℓ} : {A : Type ℓ} (o : Option A) → Stable (lift o)
lift-Stable (some x) more c a c' e = ap (map_option (λ (a, d). (a, extend more d))) e
lift-Stable none more c a c' e = absurd (cc)

pub if-Stable {ℓ} :
    {A : Type ℓ} (t : Bool) (x y : Reader A)
    → Stable x
    → Stable y
    → Stable (λ c. (if t then x else y) c)
if-Stable true x y h k = h
if-Stable false x y h k = k

get_elem?-append :
    (xs ys : Bytes) (i : ℕ) {x : ℕ} → get_elem? xs i ≡ some x → get_elem? (xs ++ ys) i ≡ some x
get_elem?-append [] ys i e = absurd (cc)
get_elem?-append (y ∷ xs) ys zero e = e
get_elem?-append (y ∷ xs) ys (suc i) e = get_elem?-append xs ys i e

drop-append_le : (n : ℕ) (xs ys : Bytes) → n ≤ length xs → drop n (xs ++ ys) ≡ drop n xs ++ ys
drop-append_le zero xs ys h = refl
drop-append_le (suc n) [] ys h = absurd (omega arith)
drop-append_le (suc n) (x ∷ xs) ys h = drop-append_le n xs ys (omega arith)

pub read_u8-Stable : Stable read_u8
unfolding read_u8
read_u8-Stable more c a c' e =
    let (x, p, q) = map_option-eq-some _ (get_elem? c.bytes c.pos) e in
    rw (get_elem?-append c.bytes more c.pos p) (ap (λ (b, d). some (b, extend more d)) q)

pub read_slice-Stable : (n : ℕ) → Stable (read_slice n)
unfolding read_slice
read_slice-Stable n more c a c' e =
    let (fits, q) = when-eq-some (leb (c.pos + n) (length c.bytes)) _ e in
    let le = leb→le (c.pos + n) (length c.bytes) fits in
    let longer : leb (c.pos + n) (length (c.bytes ++ more)) ≡ true =
      le→leb _ _ (omega (arith, length-append c.bytes more)) in
    rw
      (
        longer,
        drop-append_le c.pos c.bytes more (omega arith),
        take-append_le n (drop c.pos c.bytes) more (omega (arith, length-drop c.pos c.bytes)),
      )
      (ap (map_option (λ (b, d). (b, extend more d))) q)

pub read_u16-Stable : Stable read_u16
unfolding read_u16
read_u16-Stable = >>=-Stable (read_slice 2) _ (read_slice-Stable 2) λ s. lift-Stable (be_u16 s)

pub read_u24-Stable : Stable read_u24
unfolding read_u24
read_u24-Stable = >>=-Stable (read_slice 3) _ (read_slice-Stable 3) λ s. lift-Stable (be_u24 s)

pub read_u8_prefixed-Stable : Stable read_u8_prefixed
unfolding read_u8_prefixed
read_u8_prefixed-Stable = >>=-Stable read_u8 read_slice read_u8-Stable read_slice-Stable

pub read_u16_prefixed-Stable : Stable read_u16_prefixed
unfolding read_u16_prefixed
read_u16_prefixed-Stable = >>=-Stable read_u16 read_slice read_u16-Stable read_slice-Stable
