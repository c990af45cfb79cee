-- ===== src/Sni/Wire/Extensions.antt =====
-- The builders of extensions of the tests of crates/aegiuw-core/src/sni.rs.
use aegiuw.Prelude.{Bytes, length, ℕ, ◌%◌, List, [], ◌∷◌, ◌++◌}
use aegiuw.Sni.Types.{
  ext_server_name, ext_encrypted_client_hello, ext_pre_shared_key, ext_alpn, ext_supported_versions,
  ext_compress_certificate, ext_record_size_limit, ext_signature_algorithms, ext_supported_groups,
  ext_ec_point_formats, ext_key_share, name_type_host_name,
}
use aegiuw.Sni.Wire.{u16_bytes, build_extension}
use aegiuw.Sni.Lists.Written.{encode_all}
use aegiuw.Sni.Lists.RoundTrip.{share_bytes, u16_prefixed}

-- A list behind its length, `as u8`.
unfoldable pub u8_body : Bytes → Bytes
u8_body list = (length list % 256) ∷ list

-- A protocol behind its length, `as u8`, and a host as an entry of a server name list.
abbrev pub protocol_item : Bytes → Bytes
protocol_item p = (length p % 256) ∷ p

abbrev pub host_item : Bytes → Bytes
host_item host = name_type_host_name ∷ (u16_bytes (length host) ++ host)

unfoldable pub build_alpn_extension : List Bytes → Bytes
unfolding build_extension
build_alpn_extension protos =
    build_extension ext_alpn (u16_prefixed (encode_all protocol_item protos))

unfoldable pub build_supported_versions_extension : List ℕ → Bytes
unfolding build_extension u8_body u16_bytes
build_supported_versions_extension versions =
    build_extension ext_supported_versions (u8_body (encode_all u16_bytes versions))

unfoldable pub build_key_share_extension : List (ℕ × Bytes) → Bytes
unfolding build_extension u16_bytes
build_key_share_extension entries =
    build_extension ext_key_share (u16_prefixed (encode_all share_bytes entries))

unfoldable pub build_compress_certificate_extension : List ℕ → Bytes
unfolding build_extension u8_body u16_bytes
build_compress_certificate_extension algorithms =
    build_extension ext_compress_certificate (u8_body (encode_all u16_bytes algorithms))

unfoldable pub build_record_size_limit_extension : ℕ → Bytes
unfolding build_extension u16_bytes
build_record_size_limit_extension limit = build_extension ext_record_size_limit (u16_bytes limit)

unfoldable pub build_signature_algorithms_extension : List ℕ → Bytes
unfolding build_extension u16_bytes
build_signature_algorithms_extension algs =
    build_extension ext_signature_algorithms (u16_prefixed (encode_all u16_bytes algs))

unfoldable pub build_supported_groups_extension : List ℕ → Bytes
unfolding build_extension u16_bytes
build_supported_groups_extension groups =
    build_extension ext_supported_groups (u16_prefixed (encode_all u16_bytes groups))

unfoldable pub build_ec_point_formats_extension : Bytes → Bytes
unfolding build_extension u8_body
build_ec_point_formats_extension formats = build_extension ext_ec_point_formats (u8_body formats)

unfoldable pub build_sni_extension_with_hosts : List Bytes → Bytes
unfolding build_extension u16_bytes
build_sni_extension_with_hosts hosts =
    build_extension ext_server_name (u16_prefixed (encode_all host_item hosts))

unfoldable pub build_ech_extension : Bytes
unfolding build_extension
build_ech_extension = build_extension ext_encrypted_client_hello (0x00 ∷ 0x01 ∷ 0x02 ∷ 0x03 ∷ [])

unfoldable pub build_psk_extension : Bytes
unfolding build_extension
build_psk_extension =
    build_extension ext_pre_shared_key
      (0x00 ∷ 0x04 ∷ 0xaa ∷ 0xaa ∷ 0xaa ∷ 0xaa ∷ 0x00 ∷ 0x21 ∷ 0xbb ∷ [])
