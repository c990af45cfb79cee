-- ===== src/Fingerprint/Ja3.antt =====
-- crates/aegiuw-core/src/fingerprint.rs: `ja3`.
pub mod Fields
use aegiuw.Prelude.{
  if◌then◌else◌, Bytes, ℕ, Bool, true, false, ◌&&◌, Option, none, some, List, [], ◌∷◌, ◌++◌,
}
use aegiuw.Sni.Types.{ClientHelloMetadata, tls_legacy_version}
use aegiuw.Fingerprint.{is_grease_codepoint, decimal, hex_lower}

pub record Ja3 : Type 0 where
  pub raw : Bytes
  pub md5 : Bytes

-- The loop of `write_u16_list`, with `out` and `first`.
unfoldable pub write_u16s : Bool → Bytes → Bool → List ℕ → Bytes
write_u16s filter_grease out first [] = out
write_u16s filter_grease out first (v ∷ values) =
    let skip = filter_grease && is_grease_codepoint v in
    let parted = if first then out else out ++ b'-' ∷ [] in
    write_u16s filter_grease (if skip then out else parted ++ decimal v) (skip && first) values

unfoldable pub write_u16_list : Bytes → List ℕ → Bool → Bytes
unfolding write_u16s
write_u16_list out values filter_grease = write_u16s filter_grease out true values

-- The loop of `write_u8_list`.
unfoldable pub write_u8s : Bytes → Bool → Bytes → Bytes
write_u8s out first [] = out
write_u8s out first (v ∷ values) =
    write_u8s ((if first then out else out ++ b'-' ∷ []) ++ decimal v) false values

unfoldable pub write_u8_list : Bytes → Bytes → Bytes
unfolding write_u8s
write_u8_list out values = write_u8s out true values

-- `if let Some(groups) = … { write_u16_list(…) }`, and the same for the point formats.
unfoldable pub write_groups : Bytes → Option (List ℕ) → Bytes
write_groups out none = out
write_groups out (some groups) = write_u16_list out groups true

unfoldable pub write_formats : Bytes → Option Bytes → Bytes
write_formats out none = out
write_formats out (some formats) = write_u8_list out formats

abbrev comma : Bytes
comma = b',' ∷ []

unfoldable pub ja3_raw : ClientHelloMetadata → Bytes
unfolding write_u16_list write_groups write_formats
ja3_raw meta =
    let version = decimal tls_legacy_version ++ comma in
    let ciphers = write_u16_list version meta.cipher_suites true ++ comma in
    let extensions = write_u16_list ciphers meta.extension_order true ++ comma in
    let groups = write_groups extensions meta.supported_groups ++ comma in
    write_formats groups meta.ec_point_formats

unfoldable pub md5_hex_lower : (Bytes → Bytes) → Bytes → Bytes
md5_hex_lower md5_digest input = hex_lower (md5_digest input)

unfoldable pub ja3 : (Bytes → Bytes) → ClientHelloMetadata → Ja3
unfolding ja3_raw md5_hex_lower
ja3 md5_digest meta =
    let raw = ja3_raw meta in record { raw = raw; md5 = md5_hex_lower md5_digest raw }
