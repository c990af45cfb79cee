-- ===== src/Fingerprint.antt =====
-- crates/aegiuw-core/src/fingerprint.rs: what the fingerprints share. Texts are the lists of their
-- bytes; the digests of the crates `md5` and `sha2` are parameters of the definitions that use them.
pub mod Grease
pub mod Decimal
pub mod Join
pub mod Ja3
pub mod Ja4
pub mod Launch
pub mod Ungreased
pub mod OnWire
use aegiuw.Prelude.{
  ltb, ◌==◌, if◌then◌else◌, Bytes, filter, ℕ, zero, suc, ◌+◌, ◌-◌, ◌/◌, ◌%◌, Bool, true, false, not,
  ◌&&◌, List, [], ◌∷◌,
}

unfoldable pub is_grease_codepoint : ℕ → Bool
is_grease_codepoint value =
    let hi = value / 256 % 256 in let lo = value % 256 in hi == lo && lo % 16 == 10

-- `filter(|&v| !is_grease_codepoint(v))`.
unfoldable pub without_grease : List ℕ → List ℕ
without_grease values = filter (λ v. not (is_grease_codepoint v)) values

-- The digits of a number in front of a text. `write!("{n}")` of the standard library gives them with
-- nothing behind; the number itself is fuel enough.
unfoldable pub decimal_onto : ℕ → ℕ → Bytes → Bytes
decimal_onto zero n out = out
decimal_onto (suc fuel) n out = elim (ltb n 10) [
  | true ↦ (b'0' + n) ∷ out
  | false ↦ decimal_onto fuel (n / 10) ((b'0' + n % 10) ∷ out)
]

unfoldable pub decimal : ℕ → Bytes
unfolding decimal_onto
decimal n = decimal_onto (suc n) n []

-- `write!("{n:02}")`.
unfoldable pub two_digits : ℕ → Bytes
two_digits n = if ltb n 10 then b'0' ∷ decimal n else decimal n

abbrev pub hex_digit : ℕ → ℕ
hex_digit n = if ltb n 10 then b'0' + n else b'a' + (n - 10)

-- `write!("{byte:02x}")` of every byte.
unfoldable pub hex_lower : Bytes → Bytes
hex_lower [] = []
hex_lower (byte ∷ bytes) = hex_digit (byte / 16 % 16) ∷ hex_digit (byte % 16) ∷ hex_lower bytes
