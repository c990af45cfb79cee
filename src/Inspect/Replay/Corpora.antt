-- ===== src/Inspect/Replay/Corpora.antt =====
-- A corpus that is written line by line is replayed line by line.
use aegiuw.Prelude.{
  ◌==◌, Bool-cases, Bytes, all, AllOk, ◌≡◌, refl, ap, ◌∙◌, ◌≢◌, inl, inr, Bool, true, false, not,
  some, List, [], ◌∷◌, ◌++◌, arith,
}
use aegiuw.Prelude.Text.{codes}
use aegiuw.Sni.Extract.{eq_bytes}
use aegiuw.Sni.Extract.Hosts.{eq_bytes_iff}
use aegiuw.Inspect.Format.{unlines}
use aegiuw.Inspect.Report.{starts_with_dashes}
use aegiuw.Inspect.Histogram.{empty_histogram, replay_lines}
use aegiuw.Inspect.Replay.{
  Floating, System, success, corpus, push_char, lines_of, print_report, read_corpus, report_on,
  replay_main,
}

abbrev pub ends_in_return : Bytes → Bool
ends_in_return [] = false
ends_in_return (c ∷ []) = c == b'\r'
ends_in_return (c ∷ d ∷ s) = ends_in_return (d ∷ s)

-- A line holds no line feed, and ends in no carriage return.
abbrev pub IsLine : Bytes → Type 0
IsLine line = (all (λ c. not (c == b'\n')) line ≡ true) × (ends_in_return line ≡ false)

lines_of-line :
    (line rest : Bytes) → IsLine line → lines_of (line ++ b'\n' ∷ rest) ≡ line ∷ lines_of rest
unfolding lines_of push_char
lines_of-line [] [] h = refl
lines_of-line [] (d ∷ s) h = refl
lines_of-line (c ∷ []) rest h =
    let feed : (c == b'\n') ≡ false = ground arith in
    rw (feed, h.1, lines_of-line [] rest (refl, refl)) refl
lines_of-line (c ∷ d ∷ s) rest h =
    let feed : (c == b'\n') ≡ false = ground arith in
    let next : (d == b'\n') ≡ false = ground arith in
    let tail : all (λ c. not (c == b'\n')) (d ∷ s) ≡ true = ground arith in
    let ih = lines_of-line (d ∷ s) rest (tail, h.1) in
    elim (Bool-cases (c == b'\r')) [
      | inl y ↦ rw (feed, next, y, ih) refl
      | inr n ↦ rw (feed, next, n, ih) refl
    ]

pub lines_of-unlines : (lines : List Bytes) → AllOk IsLine lines → lines_of (unlines lines) ≡ lines
unfolding unlines
lines_of-unlines [] h = unfold lines_of in refl
lines_of-unlines (line ∷ lines) h =
    lines_of-line line (unlines lines) h.0 ∙ ap (λ r. line ∷ r) (lines_of-unlines lines h.1)

-- A text that is one of the flags with two dashes begins with these.
pub not_flag :
    (path flag : Bytes)
    → starts_with_dashes path ≡ false
    → starts_with_dashes flag ≡ true
    → eq_bytes path flag ≡ false
not_flag path flag h k = elim (Bool-cases (eq_bytes path flag)) [
  | inl y ↦ let same = (eq_bytes_iff path flag).0 y in absurd (cc (ap starts_with_dashes same))
  | inr n ↦ n
]

read_corpus-file :
    (sys : System) (path text : Bytes)
    → path ≢ codes "-h"
    → starts_with_dashes path ≡ false
    → sys.read_file path ≡ some text
    → read_corpus sys (path ∷ []) ≡ corpus text
unfolding read_corpus
read_corpus-file sys path text no_help plain file =
    let h : eq_bytes path (codes "-h") ≡ false = ground (arith, eq_bytes_iff path (codes "-h")) in
    rw
      (
        h,
        not_flag path (codes "--help") plain refl,
        not_flag path (codes "--stdin") plain refl,
        plain,
        file,
      )
      refl

-- Where the one argument is a path, that is not `-h` and begins with no two dashes, and the file has
-- some lines with a line feed behind each, the program ends well, with the report on a replay of
-- these lines, blank ones and comments among them.
pub replay_main-unlines :
    (f : Floating) (sys : System) (path : Bytes) (lines : List Bytes)
    → path ≢ codes "-h"
    → starts_with_dashes path ≡ false
    → sys.read_file path ≡ some (unlines lines)
    → AllOk IsLine lines
    → replay_main f sys (path ∷ []) ≡ success (print_report f (replay_lines empty_histogram lines))
unfolding replay_main report_on
replay_main-unlines f sys path lines no_help plain file ok =
    ap (report_on f) (read_corpus-file sys path (unlines lines) no_help plain file)
    ∙ ap (λ ls. success (print_report f (replay_lines empty_histogram ls)))
        (lines_of-unlines lines ok)
