-- ===== src/Sni/Extract/Preview.antt =====
-- crates/aegiuw-core/src/sni.rs: `malformed_hex_preview`, which the feature `debug-malformed` turns on,
-- against the hex reader of the tools.
use aegiuw.Prelude.{
  ltb, Bool-cases, Bytes, take, ℕ, zero, suc, ◌/◌, ◌%◌, ◌<◌, ◌≡◌, refl, ap, ◌∙◌, inl, inr, true, [],
  ◌∷◌, arith,
}
use aegiuw.Fingerprint.{hex_digit}
use aegiuw.Inspect.{ok, is_hexdigit, hex_digits, decode_hex}
use aegiuw.Inspect.Hex.{AreBytes, encode_hex, digit, decode_hex-encode_hex}

-- `write!("{b:02x} ")` of every byte.
unfoldable pub spaced_hex : Bytes → Bytes
spaced_hex [] = []
spaced_hex (b ∷ bytes) = hex_digit (b / 16 % 16) ∷ hex_digit (b % 16) ∷ b' ' ∷ spaced_hex bytes

-- `out.pop()`.
unfoldable pub pop : Bytes → Bytes
pop [] = []
pop (c ∷ []) = []
pop (c ∷ d ∷ s) = c ∷ pop (d ∷ s)

unfoldable pub malformed_hex_preview : Bytes → Bytes
unfolding spaced_hex pop
malformed_hex_preview bytes = pop (spaced_hex (take 64 bytes))

is_hexdigit-digit : (n : ℕ) → n < 16 → is_hexdigit (digit n) ≡ true
is_hexdigit-digit n h = elim (Bool-cases (ltb n 10)) [
  | inl y ↦ rw y (ground arith)
  | inr z ↦ rw z (ground arith)
]

-- Two digits in front of a text.
hex_digits-byte :
    (b : ℕ) (s : Bytes)
    → b < 256
    → hex_digits (hex_digit (b / 16 % 16) ∷ hex_digit (b % 16) ∷ s)
      ≡ digit (b / 16) ∷ digit (b % 16) ∷ hex_digits s
unfolding hex_digits
hex_digits-byte b s h =
    let high : b / 16 % 16 ≡ b / 16 = omega arith in
    rw (high, is_hexdigit-digit (b / 16) (omega arith), is_hexdigit-digit (b % 16) (omega arith))
      refl

hex_digits-nil : hex_digits [] ≡ []
unfolding hex_digits
hex_digits-nil = refl

hex_digits-space : (s : Bytes) → hex_digits (b' ' ∷ s) ≡ hex_digits s
unfolding hex_digits
hex_digits-space s = refl

hex_digits-spaced_hex :
    (bs : Bytes) → AreBytes bs → hex_digits (pop (spaced_hex bs)) ≡ encode_hex bs
unfolding spaced_hex pop
hex_digits-spaced_hex [] k = hex_digits-nil
hex_digits-spaced_hex (b ∷ []) (h, k) =
    hex_digits-byte b [] h ∙ ap (λ s. digit (b / 16) ∷ digit (b % 16) ∷ s) hex_digits-nil
hex_digits-spaced_hex (b ∷ c ∷ bs) (h, k) =
    hex_digits-byte b (b' ' ∷ pop (spaced_hex (c ∷ bs))) h
    ∙ ap (λ s. digit (b / 16) ∷ digit (b % 16) ∷ s)
        (hex_digits-space (pop (spaced_hex (c ∷ bs))) ∙ hex_digits-spaced_hex (c ∷ bs) k)

take-AreBytes : (n : ℕ) (bs : Bytes) → AreBytes bs → AreBytes (take n bs)
take-AreBytes zero bs k = tt
take-AreBytes (suc n) [] k = tt
take-AreBytes (suc n) (b ∷ bs) (h, k) = (h, take-AreBytes n bs k)

-- The preview of a malformed hello, given to the hex reader, is the first 64 bytes of the hello.
pub malformed_hex_preview-decode_hex :
    (bytes : Bytes) → AreBytes bytes → decode_hex (malformed_hex_preview bytes) ≡ ok (take 64 bytes)
unfolding malformed_hex_preview
malformed_hex_preview-decode_hex bytes k =
    decode_hex-encode_hex (pop (spaced_hex (take 64 bytes))) (take 64 bytes)
      (take-AreBytes 64 bytes k) (hex_digits-spaced_hex (take 64 bytes) (take-AreBytes 64 bytes k))
