-- ===== src/Inspect/Printed.antt =====
-- crates/aegiuw-sni-inspect/src/main.rs: what `main` prints of an input. Two texts that the standard
-- library makes by the tables of Unicode are parameters: the `{:?}` of a `str`, and `from_utf8_lossy`.
pub mod Words
pub mod Rows
use aegiuw.Prelude.{
  Bytes, length, map_option, ℕ, ◌/◌, ◌%◌, Option, none, some, List, [], ◌∷◌, ◌++◌, map,
}
use aegiuw.Prelude.Text.{codes}
use aegiuw.Sni.Types.{ClientHelloMetadata, SniOutcome, cleartext, encrypted, not_found, malformed}
use aegiuw.Sni.Metadata.Alpn
use aegiuw.Sni.Metadata.Alpn.{AlpnProtocol, http10, http11, http2, http3}
use aegiuw.Sni.Metadata.Versions
use aegiuw.Sni.Metadata.Versions.{
  TlsVersion, ssl30, tls10, tls11, tls12, tls13, highest_supported_tls_version,
}
use aegiuw.Sni.Metadata.Groups
use aegiuw.Sni.Metadata.Groups.{
  KeyShareGroup, secp256r1, x25519, x25519_ml_kem768, sec_p256r1_ml_kem768, x25519_kyber768_draft00,
  has_post_quantum_key_share,
}
use aegiuw.Fingerprint.{decimal, hex_digit}
use aegiuw.Fingerprint.Launch
use aegiuw.Fingerprint.Launch.{
  KnownClient, chrome, firefox, safari, curl, go, LaunchSource, browser, cli, library, unknown,
}
use aegiuw.Inspect.Format.{line_then, pad_right, bool_text}
use aegiuw.Inspect.Report.{Details, Report, undecoded, no_bytes, shown}

pub record Unicode : Type 0 where
  pub debug_str : Bytes → Bytes
  pub from_utf8_lossy : Bytes → Bytes

-- The derived `Debug` of the enumerations.
unfoldable pub debug_version : TlsVersion → Bytes
debug_version ssl30 = codes "Ssl30"
debug_version tls10 = codes "Tls10"
debug_version tls11 = codes "Tls11"
debug_version tls12 = codes "Tls12"
debug_version tls13 = codes "Tls13"
debug_version Versions.other = codes "Other"

unfoldable pub debug_group : KeyShareGroup → Bytes
debug_group secp256r1 = codes "Secp256r1"
debug_group x25519 = codes "X25519"
debug_group x25519_ml_kem768 = codes "X25519MlKem768"
debug_group sec_p256r1_ml_kem768 = codes "SecP256r1MlKem768"
debug_group x25519_kyber768_draft00 = codes "X25519Kyber768Draft00"
debug_group Groups.other = codes "Other"

unfoldable pub debug_protocol : AlpnProtocol → Bytes
debug_protocol http10 = codes "Http10"
debug_protocol http11 = codes "Http11"
debug_protocol http2 = codes "Http2"
debug_protocol http3 = codes "Http3"
debug_protocol Alpn.other = codes "Other"

unfoldable pub debug_client : KnownClient → Bytes
debug_client chrome = codes "Chrome"
debug_client firefox = codes "Firefox"
debug_client safari = codes "Safari"
debug_client curl = codes "Curl"
debug_client go = codes "Go"
debug_client KnownClient.other = codes "Other"

unfoldable pub debug_source : LaunchSource → Bytes
debug_source browser = codes "Browser"
debug_source cli = codes "Cli"
debug_source library = codes "Library"
debug_source LaunchSource.unknown = codes "Unknown"

-- The `Debug` of a list and of an `Option`, from that of their values.
unfoldable pub debug_rest : List Bytes → Bytes
debug_rest [] = codes "]"
debug_rest (s ∷ rest) = codes ", " ++ (s ++ debug_rest rest)

unfoldable pub debug_list : List Bytes → Bytes
unfolding debug_rest
debug_list [] = codes "[]"
debug_list (s ∷ rest) = codes "[" ++ (s ++ debug_rest rest)

abbrev pub debug_option : Option Bytes → Bytes
debug_option none = codes "None"
debug_option (some s) = codes "Some(" ++ (s ++ codes ")")

-- `{x:#06x}` of a `u16`, and its `Debug` as a text.
abbrev pub hex_word : ℕ → Bytes
hex_word x =
    b'0'
    ∷ b'x'
    ∷ hex_digit (x / 4096 % 16)
    ∷ hex_digit (x / 256 % 16)
    ∷ hex_digit (x / 16 % 16)
    ∷ hex_digit (x % 16)
    ∷ []

abbrev pub quoted : Bytes → Bytes
quoted s = 0x22 ∷ s ++ 0x22 ∷ []

unfoldable pub classified_text : List Bytes → List Bytes → Bytes
unfolding debug_list
classified_text values classes =
    debug_list values ++ (codes " (classified: " ++ (debug_list classes ++ codes ")"))

unfoldable pub format_optional_versions : Option (List ℕ) → Bytes
unfolding classified_text decimal debug_version Versions.from_wire
format_optional_versions none = codes "None"
format_optional_versions (some v) =
    classified_text (map decimal v) (map (λ x. debug_version (Versions.from_wire x)) v)

unfoldable pub format_optional_groups : Option (List ℕ) → Bytes
unfolding classified_text debug_group Groups.from_wire
format_optional_groups none = codes "None"
format_optional_groups (some g) =
    classified_text (map (λ x. quoted (hex_word x)) g)
      (map (λ x. debug_group (Groups.from_wire x)) g)

unfoldable pub format_optional_alpn : Unicode → ClientHelloMetadata → Bytes
unfolding classified_text debug_protocol Alpn.from_wire
format_optional_alpn u meta = elim (meta.alpn_protocols) [
  | none ↦ codes "None"
  | some protos ↦
      classified_text (map (λ p. u.debug_str (u.from_utf8_lossy p)) protos)
        (map (λ p. debug_protocol (Alpn.from_wire p)) protos)
]

unfoldable pub format_outcome : Unicode → SniOutcome → Bytes
format_outcome u (cleartext host) = codes "Cleartext { host: " ++ (u.debug_str host ++ codes " }")
format_outcome u encrypted = codes "Encrypted (ECH)"
format_outcome u not_found = codes "NotFound (no server_name extension)"
format_outcome u malformed = codes "Malformed"

unfoldable pub print_pair : Bytes → Bytes → Bytes → Bytes
unfolding pad_right
print_pair label value out = line_then (codes "  " ++ (pad_right 32 label ++ value)) out

-- The rows, label and value, in the order in which they are printed.
unfoldable pub metadata_rows : Unicode → ClientHelloMetadata → List (Bytes × Bytes)
unfolding format_optional_versions format_optional_groups format_optional_alpn decimal debug_list
    debug_version highest_supported_tls_version has_post_quantum_key_share
metadata_rows u meta =
    (codes "host", debug_option (map_option u.debug_str meta.host))
    ∷ (codes "ech_present", bool_text meta.ech_present)
    ∷ (codes "psk_present", bool_text meta.psk_present)
    ∷ (codes "early_data_present", bool_text meta.early_data_present)
    ∷ (codes "compress_certificate_present", bool_text meta.compress_certificate_present)
    ∷ (codes "record_size_limit", debug_option (map_option decimal meta.record_size_limit))
    ∷ (codes "supported_versions", format_optional_versions meta.supported_versions)
    ∷ (codes "highest_supported_tls_version", debug_version (highest_supported_tls_version meta))
    ∷ (codes "key_share_groups", format_optional_groups meta.key_share_groups)
    ∷ (codes "has_post_quantum_key_share", bool_text (has_post_quantum_key_share meta))
    ∷ (codes "supported_groups", format_optional_groups meta.supported_groups)
    ∷ (
      codes "signature_algorithms (count)",
      debug_option (map_option (λ v. decimal (length v)) meta.signature_algorithms),
    )
    ∷ (
      codes "ec_point_formats",
      debug_option (map_option (λ v. debug_list (map decimal v)) meta.ec_point_formats),
    )
    ∷ (codes "alpn_protocols", format_optional_alpn u meta)
    ∷ (codes "extension_order (count)", decimal (length meta.extension_order))
    ∷ (codes "cipher_suites (count)", decimal (length meta.cipher_suites))
    ∷ []

unfoldable pub print_pairs : List (Bytes × Bytes) → Bytes → Bytes
unfolding print_pair
print_pairs [] out = out
print_pairs ((label, value) ∷ rows) out = print_pair label value (print_pairs rows out)

unfoldable pub print_metadata : Unicode → ClientHelloMetadata → Bytes → Bytes
unfolding metadata_rows print_pairs
print_metadata u meta = print_pairs (metadata_rows u meta)

unfoldable pub print_hit : Option KnownClient → Bytes → Bytes
unfolding debug_client
print_hit none out = out
print_hit (some client) out =
    line_then (codes "  KnownClient table hit: " ++ debug_client client) out

-- What is printed of a hello that parses.
unfoldable pub print_details : Unicode → Option Details → Bytes
unfolding print_metadata print_hit debug_source
print_details u none =
    line_then (codes "parse_client_hello_full: None (input doesn't parse as a ClientHello)") []
print_details u (some d) = line_then (codes "parse_client_hello_full:") (
    print_metadata u d.metadata (
      line_then [] (
        line_then (codes "JA3:") (
          line_then (codes "  raw: " ++ d.ja3_of.raw) (
            line_then (codes "  md5: " ++ d.ja3_of.md5) (
              line_then [] (
                line_then (codes "JA4:") (
                  line_then (codes "  raw: " ++ d.ja4_of.raw) (
                    line_then (codes "  a:   " ++ d.ja4_of.a) (
                      line_then (codes "  b:   " ++ d.ja4_of.b) (
                        line_then (codes "  c:   " ++ d.ja4_of.c) (
                          print_hit d.table_hit (
                            line_then [] (
                              line_then (codes "likely_launch_source: " ++ debug_source d.source)
                                []))))))))))))))

-- The standard output; the errors go to the other one.
unfoldable pub print_input : Unicode → Report → Bytes
unfolding decimal format_outcome print_details
print_input u (undecoded e) = []
print_input u no_bytes = []
print_input u (shown n outcome details) = line_then (codes "== aegiuw-sni-inspect ==") (
    line_then (codes "input: " ++ (decimal n ++ codes " bytes")) (
      line_then [] (
        line_then (codes "extract_sni: " ++ format_outcome u outcome)
          (line_then [] (print_details u details)))))
