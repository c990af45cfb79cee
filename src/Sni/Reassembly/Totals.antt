-- ===== src/Sni/Reassembly/Totals.antt =====
-- The length that a handshake header announces.
use aegiuw.Prelude.{
  ltb, leb, leb→le, leb→lt, Bool-cases, Bytes, length, take, drop, take-append-drop, length-take,
  map_option-eq-some, unless-eq-some, ℕ, ◌≤◌, ◌<◌, ◌≡◌, refl, sym, ap, ◌∙◌, subst, inl, inr, Option,
  none, some, some-injective, ◌∷◌, ◌++◌, arith,
}
use aegiuw.Sni.Types.{max_handshake_bytes}
use aegiuw.Sni.Reassembly.{
  handshake_total, expect_total, Buffer, Round, more, done, complete, accumulate,
}

-- A message has its header at least, and the parser's maximum at most.
pub handshake_total_bounds :
    (b : Bytes) {n : ℕ}
    → handshake_total b ≡ some n
    → (4 ≤ n) × (n ≤ max_handshake_bytes) × (4 ≤ length b)
unfolding handshake_total
handshake_total_bounds (t ∷ hi ∷ mi ∷ lo ∷ rest) e = ground arith
handshake_total_bounds _ e = absurd (cc)

-- The header decides, so a cut behind it and an addition change nothing.
pub handshake_total-append :
    (b s : Bytes) → 4 ≤ length b → handshake_total (b ++ s) ≡ handshake_total b
unfolding handshake_total
handshake_total-append (t ∷ hi ∷ mi ∷ lo ∷ rest) s h = refl
handshake_total-append _ s h = absurd (omega arith)

pub handshake_total-take :
    (b : Bytes) (n : ℕ) → 4 ≤ n → 4 ≤ length b → handshake_total (take n b) ≡ handshake_total b
handshake_total-take b n h k =
    let front : 4 ≤ length (take n b) = omega (arith, length-take n b) in
    sym (handshake_total-append (take n b) (drop n b) front)
    ∙ ap handshake_total (take-append-drop n b)

-- What the buffer knows before a round: no header yet, or the length that the header announces.
abbrev pub Waits : Option ℕ → Bytes → Type 0
Waits none b = length b < 4
Waits (some n) b = (handshake_total b ≡ some n) × (length b < n)

-- The message has the length that its header announces.
abbrev pub IsWhole : Bytes → Type 0
IsWhole h = handshake_total h ≡ some (length h)

-- How a round may end once `buf` is in the buffer.
abbrev pub EndsWell : Bytes → Round → Type 0
EndsWell buf (more b) = (b.bytes ≡ buf) × Waits b.expected_total b.bytes
EndsWell buf (done h) = IsWhole h × (h ≡ take (length h) buf)

abbrev Knows : Option ℕ → Bytes → Type 0
Knows none b = length b < 4
Knows (some n) b = handshake_total b ≡ some n

complete-EndsWell : (buf : Bytes) (e : Option ℕ) → Knows e buf → EndsWell buf (complete buf e)
unfolding complete
complete-EndsWell buf none k = (refl, k)
complete-EndsWell buf (some n) k = elim (Bool-cases (leb n (length buf))) [
  | inl y ↦ rw y (
      let le = leb→le n (length buf) y in
      let (four, _, header) = handshake_total_bounds buf k in
      let size : length (take n buf) ≡ n = omega (arith, length-take n buf) in
      (handshake_total-take buf n four header ∙ k ∙ ap some (sym size), rw size refl))
  | inr x ↦ rw x (refl, (k, leb→lt n (length buf) x))
]

expect_total-Knows :
    (b : Bytes) (f : Bytes) (e e' : Option ℕ)
    → Waits e b
    → expect_total e (b ++ f) ≡ some e'
    → Knows e' (b ++ f)
unfolding expect_total
expect_total-Knows b f (some n) e' (k, _) h =
    let (_, _, header) = handshake_total_bounds b k in
    subst (λ o. Knows o (b ++ f)) (some-injective _ _ h) (handshake_total-append b f header ∙ k)
expect_total-Knows b f none e' w h = elim (Bool-cases (leb 4 (length (b ++ f)))) [
  | inl y ↦
      let (n, total, eq) = map_option-eq-some some (handshake_total (b ++ f)) (rw y at h) in
      subst (λ o. Knows o (b ++ f)) eq total
  | inr x ↦
      subst (λ o. Knows o (b ++ f)) (some-injective _ _ (rw x at h)) (leb→lt 4 (length (b ++ f)) x)
]

-- A round that succeeds ends well.
pub accumulate-EndsWell :
    (b : Buffer) (f : Bytes) {r : Round}
    → Waits b.expected_total b.bytes
    → accumulate b f ≡ some r
    → EndsWell (b.bytes ++ f) r
unfolding accumulate
accumulate-EndsWell b f {r} w h =
    let buf = b.bytes ++ f in
    let (_, h') = unless-eq-some (ltb max_handshake_bytes (length buf)) _ h in
    let (e, p, q) = map_option-eq-some (complete buf) (expect_total b.expected_total buf) h' in
    subst (EndsWell buf) q
      (complete-EndsWell buf e (expect_total-Knows b.bytes f b.expected_total e w p))
