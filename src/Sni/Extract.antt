-- ===== src/Sni/Extract.antt =====
-- crates/aegiuw-core/src/sni.rs: `parse_client_hello_full`, `extract_sni` and the functions around
-- them. The trace events of `extract_sni` stand in Trace.
pub mod Records
pub mod Hosts
pub mod Stream
pub mod Preview
pub mod Trace
pub mod Ranges
use aegiuw.Prelude.{
  leb, ◌==◌, if◌then◌else◌, Bytes, length, take, any, map_option, Bool, true, false, not, ◌&&◌,
  Option, none, some, [], ◌∷◌,
}
use aegiuw.Sni.Types.{
  Cow, borrowed, owned, ClientHelloMetadata, SniOutcome, cleartext, encrypted, not_found, malformed,
  handshake_type_client_hello,
}
use aegiuw.Sni.Std.{eq_ignore_ascii_case, split_dots}
use aegiuw.Sni.Reassembly.{reassemble_handshake}
use aegiuw.Sni.Handshake.{parse_handshake_message_full}

-- Every borrowed field of the multi-record path is copied; the contents stay.
unfoldable pub promote : ClientHelloMetadata → ClientHelloMetadata
promote m = record {
  host = m.host;
  ech_present = m.ech_present;
  alpn_protocols = m.alpn_protocols;
  supported_versions = m.supported_versions;
  key_share_groups = m.key_share_groups;
  psk_present = m.psk_present;
  early_data_present = m.early_data_present;
  compress_certificate_present = m.compress_certificate_present;
  record_size_limit = m.record_size_limit;
  signature_algorithms = m.signature_algorithms;
  supported_groups = m.supported_groups;
  ec_point_formats = m.ec_point_formats;
  extension_order = m.extension_order;
  cipher_suites = m.cipher_suites;
}

unfoldable pub parse_client_hello_full : Bytes → Option ClientHelloMetadata
unfolding promote
parse_client_hello_full bytes = elim (reassemble_handshake bytes) [
  | none ↦ none
  | some (borrowed handshake) ↦ parse_handshake_message_full handshake
  | some (owned handshake) ↦ map_option promote (parse_handshake_message_full handshake)
]

-- The projection of the metadata to an outcome.
unfoldable pub classify : ClientHelloMetadata → SniOutcome
classify m =
    if m.ech_present then encrypted else elim (m.host) [ some h ↦ cleartext h | none ↦ not_found ]

unfoldable pub extract_sni : Bytes → SniOutcome
unfolding classify
extract_sni bytes = elim (parse_client_hello_full bytes) [ none ↦ malformed | some m ↦ classify m ]

unfoldable pub parse_handshake_message : Bytes → Option SniOutcome
unfolding classify
parse_handshake_message [] = none
parse_handshake_message (b ∷ s) =
    if not (b == handshake_type_client_hello)
    then some malformed
    else elim (parse_handshake_message_full (b ∷ s)) [
      | none ↦ some malformed
      | some m ↦ some (classify m)
    ]

unfoldable pub parse_handshake_only : Bytes → Option SniOutcome
unfolding parse_handshake_message
parse_handshake_only = parse_handshake_message

-- The comparison of two texts.
unfoldable pub eq_bytes : Bytes → Bytes → Bool
eq_bytes [] [] = true
eq_bytes (a ∷ s) (b ∷ t) = a == b && eq_bytes s t
eq_bytes _ _ = false

unfoldable pub same_host : SniOutcome → SniOutcome → Option Bool
unfolding eq_bytes
same_host (cleartext a) (cleartext b) = some (eq_bytes a b)
same_host _ _ = none

unfoldable pub hrr_sni_consistent : Bytes → Bytes → Option Bool
unfolding same_host
hrr_sni_consistent first second = same_host (extract_sni first) (extract_sni second)

-- "cloudflare-ech.com"
abbrev pub cloudflare_ech_outer_sni : Bytes
cloudflare_ech_outer_sni =
    b'c' ∷ b'l' ∷ b'o' ∷ b'u' ∷ b'd' ∷ b'f' ∷ b'l' ∷ b'a' ∷ b'r' ∷ b'e' ∷ b'-' ∷ b'e' ∷ b'c' ∷ b'h'
    ∷ b'.' ∷ b'c' ∷ b'o' ∷ b'm' ∷ []

unfoldable pub is_cloudflare_ech_outer : Bytes → Bool
unfolding eq_ignore_ascii_case
is_cloudflare_ech_outer host = eq_ignore_ascii_case host cloudflare_ech_outer_sni

abbrev pub ace_prefix : Bytes
ace_prefix = b'x' ∷ b'n' ∷ b'-' ∷ b'-' ∷ []

-- Some label begins with `xn--`, in any case.
unfoldable pub is_idn_host : Bytes → Bool
unfolding split_dots eq_ignore_ascii_case
is_idn_host host =
    any (λ label. leb 4 (length label) && eq_ignore_ascii_case (take 4 label) ace_prefix)
      (split_dots host)
