-- ===== src/Inspect/Program.antt =====
-- crates/aegiuw-sni-inspect/src/main.rs: the whole program, from its arguments to its exit code and its
-- standard output. What the system reads is a parameter; the texts of the errors are left out.
use aegiuw.Prelude.{
  Bytes, ℕ, ◌≡◌, refl, sym, ap, ◌∙◌, ◌≢◌, ◌↔◌, false, Option, none, some, List, [], ◌∷◌, arith,
}
use aegiuw.Prelude.Text.{codes}
use aegiuw.Sni.Extract.{eq_bytes}
use aegiuw.Sni.Extract.Hosts.{eq_bytes_iff}
use aegiuw.Inspect.{HexResult, ok, odd_digits, invalid_byte, panicked, decode_hex}
use aegiuw.Inspect.Report.{
  Report, undecoded, Source, usage, from_stdin, from_file, from_hex, starts_with_dashes, parse_args,
  inspect, report_bytes, exit_code,
}
use aegiuw.Inspect.Printed.{Unicode, print_input}
use aegiuw.Inspect.Replay.{System}
use aegiuw.Inspect.Replay.Corpora.{not_flag}

-- The text of the input; `none` is an error, of the arguments or of the system.
unfoldable pub read_input : System → Source → Option Bytes
read_input sys usage = none
read_input sys from_stdin = sys.stdin
read_input sys (from_file path) = sys.read_file path
read_input sys (from_hex text) = some text

module _ (u : Unicode) (md5 sha256 : Bytes → Bytes) where
  unfoldable pub run_on : Option Bytes → ℕ × Bytes
  unfolding inspect exit_code print_input
  run_on none = (2, [])
  run_on (some text) =
      let report = inspect md5 sha256 text in (exit_code report, print_input u report)

  -- The exit code and the standard output.
  unfoldable pub inspect_main : System → List Bytes → ℕ × Bytes
  unfolding run_on read_input parse_args
  inspect_main sys args = run_on (read_input sys (parse_args args))

abbrev pub Spells : Bytes → Type 0
Spells text = (b : ℕ) × (bs : Bytes) × (decode_hex text ≡ ok (b ∷ bs))

parse_args-text :
    (text : Bytes)
    → text ≢ codes "-h"
    → starts_with_dashes text ≡ false
    → parse_args (text ∷ []) ≡ from_hex text
unfolding parse_args
parse_args-text text no_help plain =
    let h : eq_bytes text (codes "-h") ≡ false = ground (arith, eq_bytes_iff text (codes "-h")) in
    rw
      (
        h,
        not_flag text (codes "--help") plain refl,
        not_flag text (codes "--stdin") plain refl,
        plain,
      )
      refl

-- The program ends well exactly where the text spells a byte.
exit_code-Spells :
    (md5 sha256 : Bytes → Bytes) (text : Bytes)
    → (exit_code (inspect md5 sha256 text) ≡ 0) ↔ Spells text
unfolding inspect report_bytes exit_code
exit_code-Spells md5 sha256 text = go (decode_hex text) refl
  where
    go :
        (r : HexResult)
        → decode_hex text ≡ r
        → (exit_code (elim r as (λ _. Report) [
          | ok bytes ↦ report_bytes md5 sha256 bytes
          | e ↦ undecoded e
        ])
            ≡ 0)
          ↔ Spells text
    go (ok []) e = (λ k. absurd (cc k), λ (b, bs, k). absurd (cc (sym e ∙ k)))
    go (ok (b ∷ bs)) e = (λ k. (b, bs, e), λ k. refl)
    go (odd_digits n) e = (λ k. absurd (cc k), λ (b, bs, k). absurd (cc (sym e ∙ k)))
    go (invalid_byte n) e = (λ k. absurd (cc k), λ (b, bs, k). absurd (cc (sym e ∙ k)))
    go panicked e = (λ k. absurd (cc k), λ (b, bs, k). absurd (cc (sym e ∙ k)))

-- A text does the same, exit code and output, as an argument, on the standard input and in a file, as
-- long as it is not `-h` and begins with no two dashes; and the program ends with the exit code 0
-- exactly where the text spells one byte at least.
pub inspect_main-sources :
    (u : Unicode) (md5 sha256 : Bytes → Bytes) (sys : System) (text path : Bytes)
    → text ≢ codes "-h"
    → starts_with_dashes text ≡ false
    → sys.stdin ≡ some text
    → sys.read_file path ≡ some text
    → (inspect_main u md5 sha256 sys (codes "--stdin" ∷ [])
        ≡ inspect_main u md5 sha256 sys (text ∷ []))
      × (inspect_main u md5 sha256 sys (codes "--file" ∷ path ∷ [])
          ≡ inspect_main u md5 sha256 sys (text ∷ []))
      × (((inspect_main u md5 sha256 sys (text ∷ [])).0 ≡ 0) ↔ Spells text)
unfolding inspect_main run_on read_input parse_args
inspect_main-sources u md5 sha256 sys text path no_help plain stdin file =
    let given : inspect_main u md5 sha256 sys (text ∷ []) ≡ run_on u md5 sha256 (some text) =
      ap (λ s. run_on u md5 sha256 (read_input sys s)) (parse_args-text text no_help plain) in
    (
      ap (run_on u md5 sha256) stdin ∙ sym given,
      ap (run_on u md5 sha256) file ∙ sym given,
      rw given (exit_code-Spells md5 sha256 text),
    )
