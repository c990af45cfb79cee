-- ===== src/Inspect/Replay.antt =====
-- crates/aegiuw-sni-inspect/src/bin/replay.rs: the whole replay program, with what it reads from the
-- system and the numbers of type `f64` as parameters.
pub mod Bars
pub mod Corpora
pub mod Rows
use aegiuw.Prelude.{
  ◌==◌, if◌then◌else◌, Bytes, replicate, ℕ, not, ◌&&◌, ◌||◌, Option, none, some, List, [], ◌∷◌,
  ◌++◌,
}
use aegiuw.Prelude.Text.{codes}
use aegiuw.Sni.Extract.{eq_bytes}
use aegiuw.Fingerprint.{decimal}
use aegiuw.Inspect.Format.{line_then, pad_left, pad_right}
use aegiuw.Inspect.Report.{starts_with_dashes}
use aegiuw.Inspect.Histogram.{
  OutcomeHistogram, empty_histogram, total_parsed, total_lines, top_hosts, replay_lines,
}

-- `f64`: `as f64` of a `u64`, the division, the product, `.round() as usize`, and `{:.1}`.
pub record Floating : Type 1 where
  pub F64 : Type 0
  pub as_f64 : ℕ → F64
  pub divide : F64 → F64 → F64
  pub times : F64 → F64 → F64
  pub rounded : F64 → ℕ
  pub one_decimal : F64 → Bytes

-- What the system gives: the text of the standard input, and of each file; `none` is a failure.
pub record System : Type 0 where
  pub stdin : Option Bytes
  pub read_file : Bytes → Option Bytes

pub data Corpus : Type 0 where
  usage : Corpus
  stdin_failed : Corpus
  file_failed : Corpus
  corpus : Bytes → Corpus

unfoldable pub read_corpus : System → List Bytes → Corpus
unfolding eq_bytes
read_corpus sys (arg ∷ []) =
    if eq_bytes arg (codes "-h") || eq_bytes arg (codes "--help")
    then usage
    else if eq_bytes arg (codes "--stdin")
    then elim (sys.stdin) [ none ↦ stdin_failed | some buf ↦ corpus buf ]
    else if not (starts_with_dashes arg)
    then elim (sys.read_file arg) [ none ↦ file_failed | some text ↦ corpus text ]
    else usage
read_corpus sys _ = usage

-- `str::lines`: the text between line feeds, without a carriage return in front of one, and without an
-- empty last line.
unfoldable pub push_char : ℕ → List Bytes → List Bytes
push_char c [] = (c ∷ []) ∷ []
push_char c (line ∷ lines) = (c ∷ line) ∷ lines

unfoldable pub lines_of : Bytes → List Bytes
unfolding push_char
lines_of [] = []
lines_of (c ∷ []) = if c == b'\n' then [] ∷ [] else (c ∷ []) ∷ []
lines_of (c ∷ d ∷ s) =
    let rest = lines_of (d ∷ s) in
    if c == b'\n' then [] ∷ rest else if c == b'\r' && d == b'\n' then rest else push_char c rest

abbrev pub bar_width : ℕ
bar_width = 30

module _ (f : Floating) where
  open f use {F64, as_f64, divide, times, rounded, one_decimal}

  -- `if total == 0 { 0.0 } else { count / total }`.
  unfoldable pub fraction : ℕ → ℕ → F64
  fraction count total = if total == 0 then as_f64 0 else divide (as_f64 count) (as_f64 total)

  unfoldable pub ech_adoption_fraction : OutcomeHistogram → F64
  unfolding fraction total_parsed
  ech_adoption_fraction h = fraction h.encrypted_lines (total_parsed h)

  -- The blocks of a bar.
  unfoldable pub filled : ℕ → ℕ → ℕ → ℕ
  unfolding fraction
  filled count total width = rounded (times (fraction count total) (as_f64 width))

  unfoldable pub print_row : Bytes → ℕ → ℕ → ℕ → Bytes
  unfolding filled fraction decimal pad_left pad_right
  print_row label count total width =
      codes "  "
      ++ (pad_right 12 label
          ++ (pad_left 7 (decimal count)
              ++ (codes "  "
                  ++ (pad_left 5 (one_decimal (times (fraction count total) (as_f64 100)))
                      ++ (codes "%  " ++ replicate (filled count total width) 0x2588)))))

  print_hosts : List (Bytes × ℕ) → Bytes
  unfolding decimal pad_left
  print_hosts [] = []
  print_hosts ((host, count) ∷ top) =
      line_then (codes "  " ++ (pad_left 7 (decimal count) ++ (codes "  " ++ host)))
        (print_hosts top)

  -- The last part of the report.
  unfoldable pub print_top : List (Bytes × ℕ) → Bytes
  unfolding print_hosts
  print_top [] = line_then (codes "top cleartext hosts: (none — no Cleartext outcomes)") []
  print_top (entry ∷ top) = line_then (codes "top cleartext hosts:") (print_hosts (entry ∷ top))

  -- The rows of the histogram.
  unfoldable pub print_rows : OutcomeHistogram → Bytes → Bytes
  unfolding print_row total_parsed
  print_rows hist out =
      let parsed = total_parsed hist in
      line_then (print_row (codes "cleartext") hist.cleartext_lines parsed bar_width) (
        line_then (print_row (codes "encrypted") hist.encrypted_lines parsed bar_width) (
          line_then (print_row (codes "not_found") hist.not_found_lines parsed bar_width)
            (line_then (print_row (codes "malformed") hist.malformed_lines parsed bar_width) out)))

  unfoldable pub print_report : OutcomeHistogram → Bytes
  unfolding print_rows print_top total_lines total_parsed top_hosts ech_adoption_fraction decimal
      pad_left pad_right
  print_report hist =
      let parsed = total_parsed hist in
      line_then (codes "== aegiuw-sni-replay ==") (
        line_then
          (codes "input: "
            ++ (decimal (total_lines hist)
                ++ (codes " lines ("
                    ++ (decimal parsed
                        ++ (codes " parsed, "
                            ++ (decimal hist.decode_errors ++ codes " hex-decode errors)"))))))
          (line_then [] (
            line_then (codes "outcome histogram (of parsed):") (
              print_rows hist (
                line_then (codes "  " ++ replicate 54 b'-') (
                  line_then
                    (codes "  " ++ (pad_right 12 (codes "total") ++ pad_left 7 (decimal parsed)))
                    (line_then [] (
                      line_then
                        (codes "ECH adoption (encrypted / parsed): "
                          ++ (one_decimal (times (ech_adoption_fraction hist) (as_f64 100))
                              ++ codes "%"))
                        (line_then [] (print_top (top_hosts hist 10)))))))))))

-- How `main` ends: with the exit code 2 and an error, or with the exit code 0 and a report.
pub data Exit : Type 0 where
  failed : Corpus → Exit
  success : Bytes → Exit

unfoldable pub report_on : Floating → Corpus → Exit
report_on f (corpus text) = success (print_report f (replay_lines empty_histogram (lines_of text)))
report_on f c = failed c

unfoldable pub replay_main : Floating → System → List Bytes → Exit
unfolding report_on read_corpus
replay_main f sys args = report_on f (read_corpus sys args)
