-- ===== src/Fingerprint/Ja4/Width.antt =====
-- The widths of the parts of a JA4 fingerprint.
use aegiuw.Prelude.{
  ltb, lt→ltb, Bool-cases, Bytes, length, take, is_empty, length-append, length-take, ℕ, zero, suc,
  ◌+◌, ◌*◌, ◌/◌, ◌%◌, ◌≤◌, ◌<◌, ◌≡◌, refl, ap, ◌∙◌, inl, inr, false, Option, none, some, List, [],
  ◌∷◌, arith,
}
use aegiuw.Sni.Types.{ClientHelloMetadata}
use aegiuw.Fingerprint.{decimal, two_digits, hex_lower}
use aegiuw.Fingerprint.Decimal.{decimal_onto-small, decimal_onto-large}
use aegiuw.Fingerprint.Ja4.{
  ja4_tls_version_str, version_str, alpn_chars, find_alphanumeric, rfind_alphanumeric,
  ja4_alpn_chars, ja4_count, ja4_a, ja4_b, ja4_c, ja4, sha256_first_12_hex,
}

length-decimal_small : (n : ℕ) → n < 10 → length (decimal n) ≡ 1
unfolding decimal
length-decimal_small n h = ap length (decimal_onto-small n n [] (lt→ltb n 10 h))

length-decimal_two : (n : ℕ) → 10 ≤ n → n < 100 → length (decimal n) ≡ 2
unfolding decimal
length-decimal_two zero lo hi = absurd (omega arith)
length-decimal_two (suc n) lo hi = ap length (
    decimal_onto-large (suc n) (suc n) [] (lt→leb' (suc n) lo)
    ∙ decimal_onto-small n (suc n / 10) ((b'0' + suc n % 10) ∷ [])
        (lt→ltb (suc n / 10) 10 (omega arith)))
  where
    lt→leb' : (k : ℕ) → 10 ≤ k → ltb k 10 ≡ false
    lt→leb' k h = ground arith

length-two_digits : (n : ℕ) → n ≤ 99 → length (two_digits n) ≡ 2
unfolding two_digits
length-two_digits n h = elim (Bool-cases (ltb n 10)) [
  | inl y ↦ rw y (ap suc (length-decimal_small n (ground arith)))
  | inr z ↦ rw z (length-decimal_two n (ground arith) (omega arith))
]

length-ja4_count : (vs : List ℕ) → length (ja4_count vs) ≡ 2
unfolding ja4_count
length-ja4_count vs = length-two_digits _ (omega arith)

length-version_str : (v : ℕ) → length (version_str v) ≡ 2
unfolding version_str
length-version_str v = ground arith

length-ja4_tls_version_str : (m : ClientHelloMetadata) → length (ja4_tls_version_str m) ≡ 2
unfolding ja4_tls_version_str
length-ja4_tls_version_str m = length-version_str _

length-alpn_chars : (f l : Option ℕ) → length (alpn_chars f l) ≡ 2
unfolding alpn_chars
length-alpn_chars (some f) (some l) = refl
length-alpn_chars (some f) none = refl
length-alpn_chars none l = refl

length-ja4_alpn_chars : (m : ClientHelloMetadata) → length (ja4_alpn_chars m) ≡ 2
unfolding ja4_alpn_chars
length-ja4_alpn_chars m = go m.alpn_protocols
  where
    go :
        (o : Option (List Bytes))
        → length (elim o as (λ _. Bytes) [
          | none ↦ b'0' ∷ b'0' ∷ []
          | some protos ↦ elim protos as (λ _. Bytes) [
            | [] ↦ b'0' ∷ b'0' ∷ []
            | first ∷ _ ↦ alpn_chars (find_alphanumeric first) (rfind_alphanumeric none first)
          ]
        ])
          ≡ 2
    go none = refl
    go (some []) = refl
    go (some (p ∷ ps)) = length-alpn_chars (find_alphanumeric p) (rfind_alphanumeric none p)

length-ja4_a : (m : ClientHelloMetadata) → length (ja4_a m) ≡ 10
unfolding ja4_a
length-ja4_a m = omega (
  arith,
  length-append (ja4_tls_version_str m) _,
  length-append (ja4_count m.cipher_suites) _,
  length-append (ja4_count m.extension_order) (ja4_alpn_chars m),
  length-ja4_tls_version_str m,
  length-ja4_count m.cipher_suites,
  length-ja4_count m.extension_order,
  length-ja4_alpn_chars m,
)

length-hex_lower : (bs : Bytes) → length (hex_lower bs) ≡ 2 * length bs
unfolding hex_lower
length-hex_lower [] = refl
length-hex_lower (b ∷ bs) = omega (arith, length-hex_lower bs)

length-sha256_first_12_hex :
    (sha256 : Bytes → Bytes) (s : Bytes)
    → length (sha256 s) ≡ 32
    → length (sha256_first_12_hex sha256 s) ≡ 12
unfolding sha256_first_12_hex
length-sha256_first_12_hex sha256 s h = elim (Bool-cases (is_empty s)) [
  | inl y ↦ rw y refl
  | inr n ↦ rw n (omega (arith, length-hex_lower (take 6 (sha256 s)), length-take 6 (sha256 s)))
]

-- Where the digest has 32 bytes, as SHA-256 has, the parts of every JA4 fingerprint have 10, 12 and 12
-- characters, and the whole has 36.
pub ja4-lengths :
    (sha256 : Bytes → Bytes) (m : ClientHelloMetadata)
    → ((s : Bytes) → length (sha256 s) ≡ 32)
    → (length (ja4 sha256 m).a ≡ 10)
      × (length (ja4 sha256 m).b ≡ 12)
      × (length (ja4 sha256 m).c ≡ 12)
      × (length (ja4 sha256 m).raw ≡ 36)
unfolding ja4 ja4_b ja4_c
ja4-lengths sha256 m h =
    let a = length-ja4_a m in
    let b = length-sha256_first_12_hex sha256 _ (h _) in
    let c = length-sha256_first_12_hex sha256 _ (h _) in
    (a, b, c, omega (arith, a, b, c, length-append (ja4_a m) _, length-append (ja4_b sha256 m) _))
