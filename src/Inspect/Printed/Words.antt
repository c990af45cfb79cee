-- ===== src/Inspect/Printed/Words.antt =====
-- The groups of a hello, read back from what is printed of them.
use aegiuw.Prelude.{
  ltb, ◌==◌, if◌then◌else◌, Bool-cases, Bytes, ℕ, ◌+◌, ◌-◌, ◌*◌, ◌/◌, ◌%◌, ◌<◌, ◌≡◌, refl, ap, ◌∙◌,
  inl, inr, Option, none, some, List, [], ◌∷◌, ◌++◌, map, arith,
}
use aegiuw.Prelude.Text.{codes}
use aegiuw.Cursor.Octets.{AreOctets}
use aegiuw.Sni.Types.{ClientHelloMetadata}
use aegiuw.Sni.Lists.Ranges.{AreWords}
use aegiuw.Sni.Handshake.Ranges.{OnSome}
use aegiuw.Sni.Extract.{parse_client_hello_full}
use aegiuw.Sni.Extract.Ranges.{parse_client_hello_full-HasTypes}
use aegiuw.Fingerprint.{hex_digit}
use aegiuw.Inspect.Printed.{
  debug_rest, debug_list, debug_group, classified_text, hex_word, quoted, format_optional_groups,
}
use aegiuw.Sni.Metadata.Groups.{from_wire}

abbrev nibble : ℕ → ℕ
nibble c = if ltb c b'a' then c - b'0' else c - b'a' + 10

abbrev word : ℕ → ℕ → ℕ → ℕ → ℕ
word a b c d = nibble a * 4096 + nibble b * 256 + nibble c * 16 + nibble d

-- Entries of eight characters, a comma and a space behind each but the last.
read_words : Bytes → List ℕ
read_words (_ ∷ _ ∷ _ ∷ a ∷ b ∷ c ∷ d ∷ _ ∷ comma ∷ _ ∷ s) =
    let rest = read_words s in word a b c d ∷ (if comma == b',' then rest else [])
read_words _ = []

read_list : Bytes → Option (List ℕ)
unfolding read_words
read_list [] = none
read_list (c ∷ s) = if c == b']' then some [] else some (read_words (c ∷ s))

-- `None`, or a list in brackets, with a text behind it.
unfoldable pub read_groups : Bytes → Option (List ℕ)
unfolding read_list
read_groups [] = none
read_groups (c ∷ s) = if c == b'[' then read_list s else none

nibble-digit : (n : ℕ) → n < 16 → nibble (hex_digit n) ≡ n
nibble-digit n h = elim (Bool-cases (ltb n 10)) [
  | inl y ↦ rw y (ground arith)
  | inr z ↦ rw z (ground arith)
]

word-digits :
    (x : ℕ)
    → x < 65536
    → word
        (hex_digit (x / 4096 % 16))
        (hex_digit (x / 256 % 16))
        (hex_digit (x / 16 % 16))
        (hex_digit (x % 16))
      ≡ x
word-digits x h =
    rw
      (
        nibble-digit (x / 4096 % 16) (omega arith),
        nibble-digit (x / 256 % 16) (omega arith),
        nibble-digit (x / 16 % 16) (omega arith),
        nibble-digit (x % 16) (omega arith),
      )
      (omega arith)

abbrev texts_from : ℕ → List ℕ → ℕ → Bytes → Bytes
texts_from x xs c s =
    quoted (hex_word x) ++ (debug_rest (map (λ y. quoted (hex_word y)) xs) ++ c ∷ s)

-- The texts of the words, of which there is one at least, with another text behind.
read_words-texts :
    (x : ℕ) (xs : List ℕ) (c : ℕ) (s : Bytes)
    → AreWords (x ∷ xs)
    → read_words (texts_from x xs c s) ≡ x ∷ xs
unfolding read_words debug_rest
read_words-texts x [] c s k = ap (λ v. v ∷ []) (word-digits x k.0)
read_words-texts x (y ∷ ys) c s k =
    ap (λ n. n ∷ read_words (texts_from y ys c s)) (word-digits x k.0)
    ∙ ap (λ r. x ∷ r) (read_words-texts y ys c s k.1)

-- What is printed of a list of groups spells the list.
read_groups-format :
    (o : Option (List ℕ)) → OnSome AreWords o → read_groups (format_optional_groups o) ≡ o
unfolding read_groups read_list format_optional_groups classified_text debug_list
read_groups-format none k = refl
read_groups-format (some []) k = refl
read_groups-format (some (x ∷ xs)) k = ap some (
    read_words-texts x xs b' '
      (codes "(classified: "
        ++ (debug_list (map (λ y. debug_group (from_wire y)) (x ∷ xs)) ++ codes ")"))
      k)

-- The texts that `format_optional_groups` makes of the groups and the key shares of a hello spell the
-- lists that it holds, whatever bytes it is of.
pub read_groups-parse_client_hello_full :
    (bytes : Bytes) (m : ClientHelloMetadata)
    → AreOctets bytes
    → parse_client_hello_full bytes ≡ some m
    → (read_groups (format_optional_groups m.supported_groups) ≡ m.supported_groups)
      × (read_groups (format_optional_groups m.key_share_groups) ≡ m.key_share_groups)
read_groups-parse_client_hello_full bytes m o e =
    let types = parse_client_hello_full-HasTypes bytes m o e in
    (
      read_groups-format m.supported_groups types.groups,
      read_groups-format m.key_share_groups types.shares,
    )
