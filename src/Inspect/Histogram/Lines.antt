-- ===== src/Inspect/Histogram/Lines.antt =====
-- The lines of a corpus, as `main` of crates/aegiuw-sni-inspect/src/bin/replay.rs tells them apart.
use aegiuw.Prelude.{
  if◌then◌else◌, Bool-cases, Bytes, length, ℕ, suc, ◌+◌, ◌≤◌, ◌≡◌, refl, ap, ◌∙◌, inl, inr, Bool,
  true, false, List, [], ◌∷◌, map, arith,
}
use aegiuw.Sni.Types.{SniOutcome, cleartext, encrypted, not_found, malformed}
use aegiuw.Sni.Extract.{extract_sni}
use aegiuw.Inspect.{HexResult, ok, odd_digits, invalid_byte, panicked, decode_hex}
use aegiuw.Inspect.Histogram.{
  OutcomeHistogram, replay_line, replay_lines, record_outcome, record_decoded, record_decode_error,
  trim, is_passed_over,
}

-- A line is a hello with its outcome, or no hex, or blank or a comment.
pub data Line : Type 0 where
  ignored : Line
  parsed : SniOutcome → Line
  undecoded : Line

unfoldable pub record_line : OutcomeHistogram → Line → OutcomeHistogram
unfolding record_outcome record_decode_error
record_line h ignored = h
record_line h (parsed o) = record_outcome h o
record_line h undecoded = record_decode_error h

unfoldable pub record_lines : OutcomeHistogram → List Line → OutcomeHistogram
unfolding record_line
record_lines h [] = h
record_lines h (l ∷ ls) = record_lines (record_line h l) ls

abbrev pub one : Bool → ℕ
one true = 1
one false = 0

-- The kinds of lines, without their texts.
abbrev pub is_cleartext : Line → Bool
is_cleartext (parsed (cleartext h)) = true
is_cleartext _ = false

abbrev pub is_encrypted : Line → Bool
is_encrypted (parsed encrypted) = true
is_encrypted _ = false

abbrev pub is_not_found : Line → Bool
is_not_found (parsed not_found) = true
is_not_found _ = false

abbrev pub is_malformed : Line → Bool
is_malformed (parsed malformed) = true
is_malformed _ = false

abbrev pub is_undecoded : Line → Bool
is_undecoded undecoded = true
is_undecoded _ = false

abbrev pub is_counted : Line → Bool
is_counted ignored = false
is_counted _ = true

abbrev pub count : (Line → Bool) → List Line → ℕ
count p [] = 0
count p (l ∷ ls) = one (p l) + count p ls

pub one-le : (b : Bool) → one b ≤ 1
one-le true = omega arith
one-le false = omega arith

-- What a line of a corpus is.
unfoldable pub decoded_line : HexResult → Line
decoded_line (ok bytes) = parsed (extract_sni bytes)
decoded_line _ = undecoded

unfoldable pub line_of : Bytes → Line
unfolding decoded_line
line_of text = if is_passed_over (trim text) then ignored else decoded_line (decode_hex (trim text))

record_decoded-record_line :
    (h : OutcomeHistogram) (r : HexResult) → record_decoded h r ≡ record_line h (decoded_line r)
unfolding record_decoded decoded_line record_line
record_decoded-record_line h (ok bytes) = refl
record_decoded-record_line h (odd_digits n) = refl
record_decoded-record_line h (invalid_byte b) = refl
record_decoded-record_line h panicked = refl

pub replay_line-record_line :
    (h : OutcomeHistogram) (text : Bytes) → replay_line h text ≡ record_line h (line_of text)
unfolding replay_line line_of record_line
replay_line-record_line h text = elim (Bool-cases (is_passed_over (trim text))) [
  | inl y ↦ rw y refl
  | inr n ↦ rw n (record_decoded-record_line h (decode_hex (trim text)))
]

pub replay_lines-record_lines :
    (texts : List Bytes) (h : OutcomeHistogram)
    → replay_lines h texts ≡ record_lines h (map line_of texts)
unfolding replay_lines record_lines
replay_lines-record_lines [] h = refl
replay_lines-record_lines (text ∷ texts) h =
    replay_lines-record_lines texts (replay_line h text)
    ∙ ap (λ k. record_lines k (map line_of texts)) (replay_line-record_line h text)

pub count-le : (p : Line → Bool) (ls : List Line) → count p ls ≤ length ls
count-le p [] = omega arith
count-le p (l ∷ ls) = omega (arith, one-le (p l), count-le p ls)

pub length-map : (texts : List Bytes) → length (map line_of texts) ≡ length texts
length-map [] = refl
length-map (t ∷ texts) = ap suc (length-map texts)
