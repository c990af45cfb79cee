-- ===== src/Inspect/Report.antt =====
-- crates/aegiuw-sni-inspect/src/main.rs: what `main` reports for an input; Printed has the text around it.
-- The texts of the arguments `--stdin` and `--file` are read by the system.
use aegiuw.Prelude.{
  ◌==◌, if◌then◌else◌, Bytes, length, map_option, ℕ, ◌<◌, ◌≡◌, refl, subst, ◌≢◌, ◌↔◌, Bool, false,
  not, ◌&&◌, ◌||◌, Option, none, some, List, [], ◌∷◌, arith,
}
use aegiuw.Prelude.Text.{codes}
use aegiuw.Sni.Types.{ClientHelloMetadata, SniOutcome, malformed}
use aegiuw.Sni.Extract.{eq_bytes, classify, parse_client_hello_full, extract_sni}
use aegiuw.Sni.Extract.Records.{project, extract_sni-project}
use aegiuw.Fingerprint.Ja3.{Ja3, ja3}
use aegiuw.Fingerprint.Ja4.{Ja4, ja4}
use aegiuw.Fingerprint.Launch.{
  KnownClient, LaunchSource, known_client_from_ja4, likely_launch_source,
}
use aegiuw.Inspect.{HexResult, ok, odd_digits, invalid_byte, panicked, decode_hex}

-- Where the text of the input comes from; `usage` is the error.
pub data Source : Type 0 where
  usage : Source
  from_stdin : Source
  from_file : Bytes → Source
  from_hex : Bytes → Source

abbrev pub starts_with_dashes : Bytes → Bool
starts_with_dashes (a ∷ b ∷ s) = a == b'-' && b == b'-'
starts_with_dashes _ = false

unfoldable pub parse_args : List Bytes → Source
unfolding eq_bytes
parse_args [] = usage
parse_args (flag ∷ []) =
    if eq_bytes flag (codes "-h") || eq_bytes flag (codes "--help")
    then usage
    else if eq_bytes flag (codes "--stdin")
    then from_stdin
    else if not (starts_with_dashes flag)
    then from_hex flag
    else usage
parse_args (flag ∷ path ∷ []) = if eq_bytes flag (codes "--file") then from_file path else usage
parse_args _ = usage

-- What is printed of a hello that parses.
pub record Details : Type 0 where
  pub metadata : ClientHelloMetadata
  pub ja3_of : Ja3
  pub ja4_of : Ja4
  pub table_hit : Option KnownClient
  pub source : LaunchSource

pub data Report : Type 0 where
  undecoded : HexResult → Report
  no_bytes : Report
  shown : ℕ → SniOutcome → Option Details → Report

unfoldable pub details_of : (Bytes → Bytes) → (Bytes → Bytes) → ClientHelloMetadata → Details
details_of md5 sha256 meta = record {
  metadata = meta;
  ja3_of = ja3 md5 meta;
  ja4_of = ja4 sha256 meta;
  table_hit = known_client_from_ja4 (ja4 sha256 meta).raw;
  source = likely_launch_source sha256 meta;
}

unfoldable pub report_bytes : (Bytes → Bytes) → (Bytes → Bytes) → Bytes → Report
unfolding details_of
report_bytes md5 sha256 [] = no_bytes
report_bytes md5 sha256 (b ∷ s) =
    shown (length (b ∷ s)) (extract_sni (b ∷ s))
      (map_option (details_of md5 sha256) (parse_client_hello_full (b ∷ s)))

unfoldable pub inspect : (Bytes → Bytes) → (Bytes → Bytes) → Bytes → Report
unfolding report_bytes
inspect md5 sha256 input = elim (decode_hex input) [
  | ok bytes ↦ report_bytes md5 sha256 bytes
  | e ↦ undecoded e
]

-- `decode_hex` does not panic, so its two errors are all that `undecoded` stands for.
unfoldable pub exit_code : Report → ℕ
exit_code (undecoded e) = 2
exit_code no_bytes = 2
exit_code (shown n outcome details) = 0

classify-malformed : (m : ClientHelloMetadata) → classify m ≢ malformed
unfolding classify
classify-malformed m e = ground arith

-- The details go with the outcome: none are shown exactly for a malformed hello.
details-malformed :
    (md5 sha256 : Bytes → Bytes) (o : Option ClientHelloMetadata)
    → (map_option (details_of md5 sha256) o ≡ none) ↔ (project o ≡ malformed)
details-malformed md5 sha256 none = (λ e. refl, λ e. refl)
details-malformed md5 sha256 (some m) = (λ e. absurd (cc e), λ e. absurd (classify-malformed m e))

Spelled : (md5 sha256 : Bytes → Bytes) (input : Bytes) (r : Report) → Type 0
Spelled md5 sha256 input (shown n outcome details) =
    (bytes : Bytes) × (decode_hex input ≡ ok bytes)
    × (0 < n)
    × (n ≡ length bytes)
    × (outcome ≡ extract_sni bytes)
    × ((details ≡ none) ↔ (outcome ≡ malformed))
Spelled md5 sha256 input _ = Unit

report_bytes-Spelled :
    (md5 sha256 : Bytes → Bytes) (input bytes : Bytes)
    → decode_hex input ≡ ok bytes
    → Spelled md5 sha256 input (report_bytes md5 sha256 bytes)
unfolding Spelled report_bytes
report_bytes-Spelled md5 sha256 input [] e = tt
report_bytes-Spelled md5 sha256 input (b ∷ s) e = (
  b ∷ s,
  e,
  omega arith,
  refl,
  refl,
  rw (extract_sni-project (b ∷ s)) (details-malformed md5 sha256 (parse_client_hello_full (b ∷ s))),
)

inspect-Spelled :
    (md5 sha256 : Bytes → Bytes) (input : Bytes)
    → Spelled md5 sha256 input (inspect md5 sha256 input)
unfolding inspect Spelled
inspect-Spelled md5 sha256 input = go (decode_hex input) refl
  where
    go :
        (r : HexResult)
        → decode_hex input ≡ r
        → Spelled md5 sha256 input
            (elim r as (λ _. Report) [ ok bytes ↦ report_bytes md5 sha256 bytes | e ↦ undecoded e ])
    go (ok bytes) e = report_bytes-Spelled md5 sha256 input bytes e
    go (odd_digits n) e = tt
    go (invalid_byte b) e = tt
    go panicked e = tt

-- Where `inspect` shows an outcome, this is that of the bytes that the input spells, of which there is
-- one at least; the details of the hello are left out exactly where the outcome is `malformed`, so never
-- for a hello without a name.
pub inspect-shown :
    (md5 sha256 : Bytes → Bytes) (input : Bytes) (n : ℕ) (outcome : SniOutcome)
    (details : Option Details)
    → inspect md5 sha256 input ≡ shown n outcome details
    → (bytes : Bytes) × (decode_hex input ≡ ok bytes)
      × (0 < n)
      × (n ≡ length bytes)
      × (outcome ≡ extract_sni bytes)
      × ((details ≡ none) ↔ (outcome ≡ malformed))
unfolding Spelled
inspect-shown md5 sha256 input n outcome details e =
    subst (Spelled md5 sha256 input) e (inspect-Spelled md5 sha256 input)
