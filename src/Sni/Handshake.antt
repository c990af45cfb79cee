-- ===== src/Sni/Handshake.antt =====
-- crates/aegiuw-core/src/sni.rs, `parse_handshake_message_full`.
pub mod Header
pub mod Scanning
pub mod Fuel
pub mod Frame
pub mod Invariant
pub mod Ranges
use aegiuw.Prelude.{
  leb, ◌==◌, if◌then◌else◌, Bytes, length, is_empty, any, bind, map_option, ℕ, suc, ◌+◌, ◌*◌, ◌%◌,
  Bool, true, false, not, ◌&&◌, Option, none, some, List, [], ◌∷◌, ◌++◌,
}
use aegiuw.Cursor.{
  Cursor, Reader, ◌>>=◌, ◌>>◌, pure, guard, lift, new, remaining, read_u8, read_u16, read_u24,
  read_slice, read_u8_prefixed, read_u16_prefixed,
}
use aegiuw.Cursor.Loop.{while_remaining}
use aegiuw.Sni.Types.{
  ClientHelloMetadata, ServerNameOutcome, host, skip, malformed, handshake_type_client_hello,
  tls_legacy_version, ext_server_name, ext_encrypted_client_hello, ext_pre_shared_key, ext_alpn,
  ext_supported_versions, ext_early_data, ext_compress_certificate, ext_record_size_limit,
  ext_signature_algorithms, ext_supported_groups, ext_ec_point_formats, ext_key_share,
}
use aegiuw.Sni.ServerName.{parse_server_name_extension}
use aegiuw.Sni.Lists.{
  parse_alpn_extension, parse_ec_point_formats_extension, parse_u16_prefixed_u16_list,
  parse_supported_versions_extension, parse_record_size_limit_extension, parse_key_share_extension,
}

-- `chunks_exact(2)` read as numbers.
unfoldable pub u16_chunks : Bytes → List ℕ
u16_chunks (a ∷ b ∷ s) = (a * 256 + b) ∷ u16_chunks s
u16_chunks _ = []

-- `slice.contains(&x)`.
abbrev pub contains : ℕ → List ℕ → Bool
contains x = any (λ y. y == x)

-- The variables of the scan: `meta`, `sni_host` and `psk_seen`.
pub record Scan : Type 0 where
  pub meta : ClientHelloMetadata
  pub sni_host : Option Bytes
  pub psk_seen : Bool

abbrev pub initial_meta : List ℕ → ClientHelloMetadata
initial_meta cipher_suites = record {
  host = none;
  ech_present = false;
  alpn_protocols = none;
  supported_versions = none;
  key_share_groups = none;
  psk_present = false;
  early_data_present = false;
  compress_certificate_present = false;
  record_size_limit = none;
  signature_algorithms = none;
  supported_groups = none;
  ec_point_formats = none;
  extension_order = [];
  cipher_suites = cipher_suites;
}

abbrev pub initial_scan : List ℕ → Scan
initial_scan cipher_suites = record {
  meta = initial_meta cipher_suites;
  sni_host = none;
  psk_seen = false;
}

-- The type goes to `extension_order`; a `pre_shared_key` is noted.
unfoldable pub note_type : ℕ → Scan → Scan
note_type ext_type s =
    let m = s.meta in
    let order = m.extension_order ++ ext_type ∷ [] in
    if ext_type == ext_pre_shared_key
    then record s {
      meta = record m { extension_order = order; psk_present = true };
      psk_seen = true;
    }
    else record s { meta = record m { extension_order = order } }

unfoldable pub handle_server_name : ServerNameOutcome → Scan → Option Scan
handle_server_name (host h) s = some (record s { sni_host = some h })
handle_server_name skip s = some s
handle_server_name malformed s = none

-- `match ext_type`.
unfoldable pub handle_extension : ℕ → Bytes → Scan → Option Scan
handle_extension ext_type ext s =
    let m = s.meta in
    if ext_type == ext_encrypted_client_hello
    then some (record s { meta = record m { ech_present = true } })
    else if ext_type == ext_server_name
    then handle_server_name (parse_server_name_extension ext) s
    else if ext_type == ext_alpn
    then map_option (λ v. record s { meta = record m { alpn_protocols = some v } })
        (parse_alpn_extension ext)
    else if ext_type == ext_supported_versions
    then map_option (λ v. record s { meta = record m { supported_versions = some v } })
        (parse_supported_versions_extension ext)
    else if ext_type == ext_key_share
    then map_option (λ v. record s { meta = record m { key_share_groups = some v } })
        (parse_key_share_extension ext)
    else if ext_type == ext_early_data
    then some (record s { meta = record m { early_data_present = true } })
    else if ext_type == ext_compress_certificate
    then some (record s { meta = record m { compress_certificate_present = true } })
    else if ext_type == ext_record_size_limit
    then map_option (λ v. record s { meta = record m { record_size_limit = some v } })
        (parse_record_size_limit_extension ext)
    else if ext_type == ext_signature_algorithms
    then map_option (λ v. record s { meta = record m { signature_algorithms = some v } })
        (parse_u16_prefixed_u16_list ext)
    else if ext_type == ext_supported_groups
    then map_option (λ v. record s { meta = record m { supported_groups = some v } })
        (parse_u16_prefixed_u16_list ext)
    else if ext_type == ext_ec_point_formats
    then map_option (λ v. record s { meta = record m { ec_point_formats = some v } })
        (parse_ec_point_formats_extension ext)
    else some s

-- A round of the scan.
unfoldable pub scan_extension : Scan → Reader Scan
scan_extension s = do
  guard (not s.psk_seen)
  ext_type ← read_u16
  ext ← read_u16_prefixed
  guard (not (contains ext_type s.meta.extension_order))
  lift (handle_extension ext_type ext (note_type ext_type s))

-- The loop; a round reads four bytes at least, so the length of the block is fuel enough.
unfoldable pub scan_extensions : Bytes → Scan → Option Scan
scan_extensions extensions s =
    map_option (λ (t, _). t)
      (while_remaining (suc (length extensions)) 4 scan_extension s (new extensions))

-- The host is published where ECH is absent only.
unfoldable pub publish_host : Scan → ClientHelloMetadata
publish_host s = if not s.meta.ech_present then record (s.meta) { host = s.sni_host } else s.meta

-- The message up to the extensions: the cipher suites and the extensions block.
unfoldable pub read_client_hello : Reader (List ℕ × Bytes)
read_client_hello = do
  handshake_type ← read_u8
  guard (handshake_type == handshake_type_client_hello)
  body_length ← read_u24
  version ← read_u16
  guard (version == tls_legacy_version)
  random ← read_slice 32
  session_id ← read_u8_prefixed
  guard (leb (length session_id) 32)
  suites ← read_u16_prefixed
  guard (not (is_empty suites) && length suites % 2 == 0)
  compression ← read_u8_prefixed
  guard (contains 0 compression)
  extensions ← read_u16_prefixed
  pure (u16_chunks suites, extensions)

unfoldable pub parse_handshake_message_full : Bytes → Option ClientHelloMetadata
parse_handshake_message_full handshake =
    bind (read_client_hello (new handshake)) λ ((cipher_suites, extensions), _).
      map_option publish_host (scan_extensions extensions (initial_scan cipher_suites))
