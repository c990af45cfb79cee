-- ===== src/Cursor/Reading.antt =====
-- The readers of `Cursor` at a position that is written as what was read and what is left.
use aegiuw.Prelude.{
  ℕ, ◌+◌, ◌*◌, ◌<◌, ◌≡◌, refl, [], ◌∷◌, ◌++◌, none, some, Bytes, length, arith, append_assoc,
  length-append, append-nil, subst, take-append_self, drop-append_self, get_elem?-append_self,
  le→leb, lt→leb,
}
use aegiuw.Cursor.{
  Cursor, new, remaining, read_u8, read_u16, read_u24, read_slice, read_u8_prefixed,
  read_u16_prefixed,
}

-- The cursor over `pre ++ s` that has read `pre`.
pub at : Bytes → Bytes → Cursor
at pre s = record { bytes = pre ++ s; pos = length pre }

pub new-at : (s : Bytes) → new s ≡ at [] s
unfolding new at
new-at s = refl

pub remaining-at : (pre s : Bytes) → remaining (at pre s) ≡ length s
unfolding remaining at
remaining-at pre s = omega (arith, length-append pre s)

at-regroup :
    (pre r s : Bytes) (n : ℕ)
    → n ≡ length r
    → ◌≡◌ {A = Cursor} (record { bytes = pre ++ (r ++ s); pos = length pre + n }) (at (pre ++ r) s)
unfolding at
at-regroup pre r s n e = rw (append_assoc, length-append pre r, e) refl

pub read_u8-at :
    (pre : Bytes) (x : ℕ) (s : Bytes) → read_u8 (at pre (x ∷ s)) ≡ some (x, at (pre ++ x ∷ []) s)
unfolding read_u8 at
read_u8-at pre x s = rw (get_elem?-append_self pre (x ∷ s)) (rw (at-regroup pre (x ∷ []) s 1 refl))

pub read_u8-at_end : (pre : Bytes) → read_u8 (at pre []) ≡ none
unfolding read_u8 at
read_u8-at_end pre = rw (get_elem?-append_self pre [])

pub read_slice-at :
    (pre r s : Bytes) (n : ℕ)
    → n ≡ length r
    → read_slice n (at pre (r ++ s)) ≡ some (r, at (pre ++ r) s)
unfolding read_slice at
read_slice-at pre r s n e =
    rw
      (
        le→leb (length pre + n) (length (pre ++ (r ++ s)))
            (omega (arith, length-append pre (r ++ s), length-append r s)),
        drop-append_self pre (r ++ s),
        e,
        take-append_self r s,
      )
      (rw (at-regroup pre r s (length r) refl))

pub read_slice-at_short : (pre s : Bytes) (n : ℕ) → length s < n → read_slice n (at pre s) ≡ none
unfolding read_slice at
read_slice-at_short pre s n h =
    rw (lt→leb (length pre + n) (length (pre ++ s)) (omega (arith, length-append pre s)))

module _ (pre s : Bytes) where
  -- The big-endian readers, at the bytes of one number.
  pub read_u16-at :
      (a b : ℕ) → read_u16 (at pre (a ∷ b ∷ s)) ≡ some (a * 256 + b, at (pre ++ a ∷ b ∷ []) s)
  unfolding read_u16
  read_u16-at a b = rw (read_slice-at pre (a ∷ b ∷ []) s 2 refl)

  pub read_u24-at :
      (a b c : ℕ)
      → read_u24 (at pre (a ∷ b ∷ c ∷ s))
        ≡ some (a * 65536 + b * 256 + c, at (pre ++ a ∷ b ∷ c ∷ []) s)
  unfolding read_u24
  read_u24-at a b c = rw (read_slice-at pre (a ∷ b ∷ c ∷ []) s 3 refl)

  pub read_u8_prefixed-at :
      (n : ℕ) (r : Bytes)
      → n ≡ length r
      → read_u8_prefixed (at pre (n ∷ (r ++ s))) ≡ some (r, at ((pre ++ n ∷ []) ++ r) s)
  unfolding read_u8_prefixed
  read_u8_prefixed-at n r e = rw (read_u8-at pre n (r ++ s)) (read_slice-at (pre ++ n ∷ []) r s n e)

  pub read_u16_prefixed-at :
      (a b : ℕ) (r : Bytes)
      → a * 256 + b ≡ length r
      → read_u16_prefixed (at pre (a ∷ b ∷ (r ++ s))) ≡ some (r, at ((pre ++ a ∷ b ∷ []) ++ r) s)
  unfolding read_u16_prefixed read_u16
  read_u16_prefixed-at a b r e =
      rw (read_slice-at pre (a ∷ b ∷ []) (r ++ s) 2 refl)
        (read_slice-at (pre ++ a ∷ b ∷ []) r s (a * 256 + b) e)

-- The length-prefixed readers where nothing follows.
module _ (pre : Bytes) where
  pub read_u16_prefixed-last :
      (a b : ℕ) (r : Bytes)
      → a * 256 + b ≡ length r
      → read_u16_prefixed (at pre (a ∷ b ∷ r)) ≡ some (r, at ((pre ++ a ∷ b ∷ []) ++ r) [])
  read_u16_prefixed-last a b r e =
      subst
        (λ t. read_u16_prefixed (at pre (a ∷ b ∷ t)) ≡ some (r, at ((pre ++ a ∷ b ∷ []) ++ r) []))
        (append-nil r) (read_u16_prefixed-at pre [] a b r e)

  pub read_u8_prefixed-last :
      (n : ℕ) (r : Bytes)
      → n ≡ length r
      → read_u8_prefixed (at pre (n ∷ r)) ≡ some (r, at ((pre ++ n ∷ []) ++ r) [])
  read_u8_prefixed-last n r e =
      subst (λ t. read_u8_prefixed (at pre (n ∷ t)) ≡ some (r, at ((pre ++ n ∷ []) ++ r) []))
        (append-nil r) (read_u8_prefixed-at pre [] n r e)
