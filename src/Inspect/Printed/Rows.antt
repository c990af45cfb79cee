-- ===== src/Inspect/Printed/Rows.antt =====
-- The rows for the groups of a hello in what crates/aegiuw-sni-inspect/src/main.rs prints.
use aegiuw.Prelude.{
  Bytes, length, ℕ, zero, suc, ◌≡◌, refl, sym, ◌∙◌, subst, Option, none, some, some-injective, List,
  [], ◌∷◌, ◌++◌,
}
use aegiuw.Prelude.Text.{codes}
use aegiuw.Fingerprint.{decimal}
use aegiuw.Cursor.{remaining, new}
use aegiuw.Cursor.Octets.{AreOctets}
use aegiuw.Sni.Types.{ClientHelloMetadata, SniOutcome}
use aegiuw.Sni.Extract.{extract_sni, parse_client_hello_full}
use aegiuw.Sni.Extract.Records.{parse_client_hello_full-eq}
use aegiuw.Sni.Reassembly.{reassemble_handshake_owned, reassemble_loop, read_record}
use aegiuw.Inspect.{ok, decode_hex}
use aegiuw.Inspect.Format.{pad_right, HasLine, HasLine-here, HasLine-later}
use aegiuw.Inspect.Report.{Details, details_of, report_bytes, inspect, shown}
use aegiuw.Inspect.Printed.{
  Unicode, print_pair, format_optional_groups, metadata_rows, print_pairs, print_metadata,
  format_outcome, print_details, print_input,
}
use aegiuw.Inspect.Printed.Words.{read_groups, read_groups-parse_client_hello_full}

-- A row of the metadata: a label, up to 32 places, and a value.
abbrev pub HasRow : Bytes → Bytes → Bytes → Type 0
HasRow label value out = HasLine (codes "  " ++ (pad_right 32 label ++ value)) out

-- The row at a place.
abbrev row_at : ℕ → List (Bytes × Bytes) → Option (Bytes × Bytes)
row_at n [] = none
row_at zero (row ∷ rows) = some row
row_at (suc n) (row ∷ rows) = row_at n rows

print_pairs-HasRow :
    (n : ℕ) (rows : List (Bytes × Bytes)) (label value out : Bytes)
    → row_at n rows ≡ some (label, value)
    → HasRow label value (print_pairs rows out)
unfolding print_pairs print_pair
print_pairs-HasRow n [] label value out e = absurd (cc e)
print_pairs-HasRow zero ((l, v) ∷ rows) label value out e =
    let here = HasLine-here (codes "  " ++ (pad_right 32 l ++ v)) (print_pairs rows out) in
    subst (λ (r : Bytes × Bytes). HasRow r.0 r.1 (print_pairs ((l, v) ∷ rows) out))
      (some-injective _ _ e) here
print_pairs-HasRow (suc n) ((l, v) ∷ rows) label value out e =
    HasLine-later (codes "  " ++ (pad_right 32 label ++ value))
      (codes "  " ++ (pad_right 32 l ++ v)) (print_pairs rows out)
      (print_pairs-HasRow n rows label value out e)

print_metadata-HasRow :
    (u : Unicode) (m : ClientHelloMetadata) (out : Bytes)
    → HasRow
        (codes "supported_groups")
        (format_optional_groups m.supported_groups)
        (print_metadata u m out)
      × HasRow
          (codes "key_share_groups")
          (format_optional_groups m.key_share_groups)
          (print_metadata u m out)
unfolding print_metadata
print_metadata-HasRow u m out = (
  print_pairs-HasRow 10 (metadata_rows u m) _ _ out (unfold metadata_rows in refl),
  print_pairs-HasRow 8 (metadata_rows u m) _ _ out (unfold metadata_rows in refl),
)

shown-HasRow :
    (u : Unicode) (n : ℕ) (o : SniOutcome) (d : Details) (label value : Bytes)
    → ((out : Bytes) → HasRow label value (print_metadata u d.metadata out))
    → HasRow label value (print_input u (shown n o (some d)))
unfolding print_input print_details
shown-HasRow u n o d label value rows =
    let row = codes "  " ++ (pad_right 32 label ++ value) in
    HasLine-later row (codes "== aegiuw-sni-inspect ==") _ (
      HasLine-later row (codes "input: " ++ (decimal n ++ codes " bytes")) _ (
        HasLine-later row [] _ (
          HasLine-later row (codes "extract_sni: " ++ format_outcome u o) _ (
            HasLine-later row [] _
              (HasLine-later row (codes "parse_client_hello_full:") _ (rows _))))))

no_hello : parse_client_hello_full [] ≡ none
unfolding reassemble_handshake_owned reassemble_loop read_record remaining new
no_hello = parse_client_hello_full-eq [] ∙ refl

-- What stands in the metadata stands in the whole output.
print_input-HasRow :
    (u : Unicode) (md5 sha256 : Bytes → Bytes) (bytes : Bytes) (m : ClientHelloMetadata)
    (label value : Bytes)
    → parse_client_hello_full bytes ≡ some m
    → ((out : Bytes) → HasRow label value (print_metadata u m out))
    → HasRow label value (print_input u (report_bytes md5 sha256 bytes))
print_input-HasRow u md5 sha256 [] m label value e rows = absurd (cc (sym no_hello ∙ e))
print_input-HasRow u md5 sha256 (b ∷ s) m label value e rows =
    unfold report_bytes in
    rw e (
      shown-HasRow u (length (b ∷ s)) (extract_sni (b ∷ s)) (details_of md5 sha256 m) label value
        (unfold details_of in rows))

inspect-ok :
    (md5 sha256 : Bytes → Bytes) (input bytes : Bytes)
    → decode_hex input ≡ ok bytes
    → inspect md5 sha256 input ≡ report_bytes md5 sha256 bytes
unfolding inspect
inspect-ok md5 sha256 input bytes d = rw (inspect, d) refl

-- The output of the program on a text that spells the bytes of a hello has a row for its groups and
-- one for its key shares, and their values spell the lists that the hello holds, unknown groups and
-- GREASE among them, whatever bytes the hello is of.
pub read_groups-inspect :
    (u : Unicode) (md5 sha256 : Bytes → Bytes) (input bytes : Bytes) (m : ClientHelloMetadata)
    → AreOctets bytes
    → decode_hex input ≡ ok bytes
    → parse_client_hello_full bytes ≡ some m
    → ((value : Bytes) × HasRow
          (codes "supported_groups")
          value
          (print_input u (inspect md5 sha256 input))
        × (read_groups value ≡ m.supported_groups))
      × ((value : Bytes) × HasRow
            (codes "key_share_groups")
            value
            (print_input u (inspect md5 sha256 input))
          × (read_groups value ≡ m.key_share_groups))
read_groups-inspect u md5 sha256 input bytes m o d e =
    let (groups, shares) = read_groups-parse_client_hello_full bytes m o e in
    rw (inspect-ok md5 sha256 input bytes d) (
      (
        format_optional_groups m.supported_groups,
        print_input-HasRow u md5 sha256 bytes m _ _ e (λ out. (print_metadata-HasRow u m out).0),
        groups,
      ),
      (
        format_optional_groups m.key_share_groups,
        print_input-HasRow u md5 sha256 bytes m _ _ e (λ out. (print_metadata-HasRow u m out).1),
        shares,
      ),
    )
