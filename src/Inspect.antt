-- ===== src/Inspect.antt =====
-- crates/aegiuw-sni-inspect/src/lib.rs, `decode_hex`. A text is the list of its `char`s.
pub mod Hex
pub mod Histogram
pub mod Report
pub mod Format
pub mod Replay
pub mod Printed
pub mod Program
use aegiuw.Prelude.{
  ◌==◌, if◌then◌else◌, within, Bytes, length, ℕ, ◌+◌, ◌-◌, ◌*◌, ◌%◌, Bool, ◌||◌, Option, none, some,
  [], ◌∷◌,
}
use aegiuw.Sni.Std.{is_digit}

-- What `decode_hex` gives: the two errors, and the panic of an index out of bounds.
pub data HexResult : Type 0 where
  ok : Bytes → HexResult
  odd_digits : ℕ → HexResult
  invalid_byte : ℕ → HexResult
  panicked : HexResult

abbrev pub is_hexdigit : ℕ → Bool
is_hexdigit c = is_digit c || within b'a' b'f' c || within b'A' b'F' c

-- The digits of a text, everything else dropped.
unfoldable pub hex_digits : Bytes → Bytes
hex_digits [] = []
hex_digits (c ∷ s) = let rest = hex_digits s in if is_hexdigit c then c ∷ rest else rest

-- `none` is the error of a byte that is no digit.
unfoldable pub hex_nibble : ℕ → Option ℕ
hex_nibble byte =
    if is_digit byte
    then some (byte - b'0')
    else if within b'a' b'f' byte
    then some (byte - b'a' + 10)
    else if within b'A' b'F' byte
    then some (byte - b'A' + 10)
    else none

-- `(hi << 4) | lo` of two nibbles in front of what the rest of the loop pushes.
unfoldable pub push_byte : ℕ → ℕ → HexResult → HexResult
push_byte hi lo (ok out) = ok ((hi * 16 + lo) ∷ out)
push_byte hi lo r = r

-- A round, from the two nibbles: the first that is none is the error.
unfoldable pub decode_pair : ℕ → ℕ → Option ℕ → Option ℕ → HexResult → HexResult
decode_pair a b none lo out = invalid_byte a
decode_pair a b (some hi) none out = invalid_byte b
decode_pair a b (some hi) (some lo) out = push_byte hi lo out

-- The loop over the pairs: `i` and `i + 1`.
unfoldable pub decode_pairs : Bytes → HexResult
decode_pairs [] = ok []
decode_pairs (a ∷ []) = panicked
decode_pairs (a ∷ b ∷ rest) = decode_pair a b (hex_nibble a) (hex_nibble b) (decode_pairs rest)

unfoldable pub decode_hex : Bytes → HexResult
unfolding hex_digits decode_pairs
decode_hex input =
    let cleaned = hex_digits input in
    if length cleaned % 2 == 0 then decode_pairs cleaned else odd_digits (length cleaned)
