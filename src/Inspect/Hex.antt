-- ===== src/Inspect/Hex.antt =====
-- `decode_hex` of crates/aegiuw-sni-inspect/src/lib.rs inverts the usual writing of bytes.
use aegiuw.Prelude.{
  AreBelow, ltb, ◌==◌, if◌then◌else◌, within, ==_iff, Bool-cases, Bytes, length, all, ℕ, ◌+◌, ◌-◌,
  ◌*◌, ◌/◌, ◌%◌, ◌<◌, ◌≡◌, refl, ap, ◌∙◌, ◌⊎◌, inl, inr, true, some, [], ◌∷◌, arith,
}
use aegiuw.Sni.Std.{is_digit}
use aegiuw.Inspect.{
  ok, odd_digits, is_hexdigit, hex_digits, hex_nibble, push_byte, decode_pair, decode_pairs,
  decode_hex,
}

-- A digit in lower case, and bytes in digits.
abbrev pub digit : ℕ → ℕ
digit n = if ltb n 10 then b'0' + n else b'a' + (n - 10)

abbrev pub encode_hex : Bytes → Bytes
encode_hex [] = []
encode_hex (b ∷ bs) = digit (b / 16) ∷ digit (b % 16) ∷ encode_hex bs

abbrev pub AreBytes : Bytes → Type 0
AreBytes = AreBelow 256

hex_nibble-digit : (n : ℕ) → n < 16 → hex_nibble (digit n) ≡ some n
unfolding hex_nibble
hex_nibble-digit n h = elim (Bool-cases (ltb n 10)) [
  | inl y ↦ rw y (ground arith)
  | inr z ↦ rw z (ground arith)
]

decode_pairs-digits :
    (a b : ℕ) (s : Bytes) {hi lo : ℕ} {out : Bytes}
    → hex_nibble a ≡ some hi
    → hex_nibble b ≡ some lo
    → decode_pairs s ≡ ok out
    → decode_pairs (a ∷ b ∷ s) ≡ ok ((hi * 16 + lo) ∷ out)
unfolding decode_pairs decode_pair push_byte
decode_pairs-digits a b s {hi} {lo} {out} p q r =
    ap (λ o. decode_pair a b o (hex_nibble b) (decode_pairs s)) p
    ∙ ap (λ o. decode_pair a b (some hi) o (decode_pairs s)) q
    ∙ ap (push_byte hi lo) r

decode_pairs-encode_hex : (bs : Bytes) → AreBytes bs → decode_pairs (encode_hex bs) ≡ ok bs
unfolding decode_pairs push_byte
decode_pairs-encode_hex [] k = refl
decode_pairs-encode_hex (b ∷ bs) k =
    decode_pairs-digits (digit (b / 16)) (digit (b % 16)) (encode_hex bs)
      (hex_nibble-digit (b / 16) (omega (arith, k.0))) (hex_nibble-digit (b % 16) (omega arith))
      (decode_pairs-encode_hex bs k.1)
    ∙ ap (λ c. ok (c ∷ bs)) (omega arith)

length-encode_hex : (bs : Bytes) → length (encode_hex bs) ≡ 2 * length bs
length-encode_hex [] = refl
length-encode_hex (b ∷ bs) = omega (arith, length-encode_hex bs)

-- A text whose hex digits are those of some bytes in lower case decodes to these bytes, whatever
-- stands between the digits.
pub decode_hex-encode_hex :
    (s bs : Bytes) → AreBytes bs → hex_digits s ≡ encode_hex bs → decode_hex s ≡ ok bs
unfolding decode_hex
decode_hex-encode_hex s bs k e =
    let even : (length (encode_hex bs) % 2 == 0) ≡ true =
      (==_iff _ 0).1 (omega (arith, length-encode_hex bs)) in
    rw (e, even) (decode_pairs-encode_hex bs k)

nibble-cases : (c : ℕ) → is_hexdigit c ≡ true → (n : ℕ) × (hex_nibble c ≡ some n) × (n < 16)
unfolding hex_nibble
nibble-cases c h = elim (Bool-cases (is_digit c)) [
  | inl y ↦ rw y (c - b'0', refl, ground arith)
  | inr n ↦ rw n (elim (Bool-cases (within b'a' b'f' c)) [
    | inl y ↦ rw y (c - b'a' + 10, refl, ground arith)
    | inr m ↦ rw m (elim (Bool-cases (within b'A' b'F' c)) [
      | inl y ↦ rw y (c - b'A' + 10, refl, ground arith)
      | inr k ↦ absurd (ground arith)
    ])
  ])
]

all-hex_digits : (s : Bytes) → all is_hexdigit (hex_digits s) ≡ true
unfolding hex_digits
all-hex_digits [] = refl
all-hex_digits (c ∷ s) = elim (Bool-cases (is_hexdigit c)) [
  | inl y ↦ rw y (rw y (all-hex_digits s))
  | inr n ↦ rw n (all-hex_digits s)
]

-- Digits in an even number decode to half as many bytes.
Decodes : Bytes → Type 0
Decodes s = (bs : Bytes) × (decode_pairs s ≡ ok bs) × AreBytes bs × (2 * length bs ≡ length s)

decode_pairs-Decodes : (s : Bytes) → all is_hexdigit s ≡ true → length s % 2 ≡ 0 → Decodes s
unfolding decode_pairs push_byte Decodes
decode_pairs-Decodes [] h e = ([], refl, tt, omega arith)
decode_pairs-Decodes (a ∷ []) h e = absurd (omega arith)
decode_pairs-Decodes (a ∷ b ∷ s) h e =
    let (hi, p, hi_le) = nibble-cases a (ground arith) in
    let (lo, q, lo_le) = nibble-cases b (ground arith) in
    let (bs, r, k, size) = decode_pairs-Decodes s (ground arith) (omega arith) in
    (
      (hi * 16 + lo) ∷ bs,
      decode_pairs-digits a b s {hi = hi} {lo = lo} {out = bs} p q r,
      (omega arith, k),
      omega arith,
    )

-- `decode_hex` never meets a byte that is no digit, and indexes nothing out of bounds: an odd number
-- of digits is the one error, and an even number decodes to half as many bytes.
pub decode_hex_total :
    (s : Bytes)
    → ((length (hex_digits s) % 2 ≡ 1) × (decode_hex s ≡ odd_digits (length (hex_digits s))))
      ⊎ ((bs : Bytes) × (decode_hex s ≡ ok bs)
          × AreBytes bs
          × (2 * length bs ≡ length (hex_digits s)))
unfolding decode_hex Decodes
decode_hex_total s = elim (Bool-cases (length (hex_digits s) % 2 == 0)) [
  | inl y ↦ rw y (inr (decode_pairs-Decodes (hex_digits s) (all-hex_digits s) ((==_iff _ 0).0 y)))
  | inr n ↦ rw n (inl (ground arith, refl))
]
