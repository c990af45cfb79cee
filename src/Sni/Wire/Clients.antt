-- ===== src/Sni/Wire/Clients.antt =====
-- The hellos of well-known clients in the tests of crates/aegiuw-core/src/sni.rs.
use aegiuw.Prelude.{Bytes, length, replicate, ℕ, List, [], ◌∷◌, ◌++◌}
use aegiuw.Prelude.Text.{codes}
use aegiuw.Sni.Types.{
  handshake_type_client_hello, content_type_handshake, ext_encrypted_client_hello,
  tls_legacy_version,
}
use aegiuw.Sni.Extract.{cloudflare_ech_outer_sni}
use aegiuw.Sni.Lists.Written.{encode_all}
use aegiuw.Sni.Wire.{
  u16_bytes, u24_bytes, wrap_record, message_body, build_extension, build_sni_extension,
}
use aegiuw.Sni.Wire.Extensions.{
  build_alpn_extension, build_supported_versions_extension, build_key_share_extension,
  build_compress_certificate_extension, build_record_size_limit_extension,
  build_signature_algorithms_extension, build_supported_groups_extension,
  build_ec_point_formats_extension,
}

abbrev pub tls_13_ciphers : List ℕ
tls_13_ciphers = 0x1301 ∷ 0x1302 ∷ 0x1303 ∷ []

abbrev pub legacy_ecdhe_ciphers : List ℕ
legacy_ecdhe_ciphers = 0xc02b ∷ 0xc02f ∷ 0xc02c ∷ 0xc030 ∷ []

abbrev pub cipher_suites_blob : List ℕ → Bytes
cipher_suites_blob = encode_all u16_bytes

-- The body without a session id, and with the null compression.
unfoldable pub build_clienthello_custom_ciphers : Bytes → List ℕ → Bytes
unfolding wrap_record message_body u24_bytes u16_bytes
build_clienthello_custom_ciphers extensions cipher_suites =
    let ciphers = cipher_suites_blob cipher_suites in
    let body = message_body extensions tls_legacy_version [] ciphers (0x00 ∷ []) in
    wrap_record content_type_handshake
      (handshake_type_client_hello ∷ (u24_bytes (length body) ++ body))

-- `exts.extend_from_slice` of each.
abbrev extend_all : List Bytes → Bytes
extend_all = encode_all (λ ext. ext)

abbrev pub real_mlkem768_pubkey_len : ℕ
real_mlkem768_pubkey_len = 1216

unfoldable pub build_chrome_2026_clienthello : Bytes
unfolding build_clienthello_custom_ciphers build_alpn_extension build_compress_certificate_extension
    build_ec_point_formats_extension build_extension build_key_share_extension
    build_record_size_limit_extension build_signature_algorithms_extension build_sni_extension
    build_supported_groups_extension build_supported_versions_extension
build_chrome_2026_clienthello =
    build_clienthello_custom_ciphers
      (extend_all (
        build_extension 0x0a0a []
        ∷ build_sni_extension (codes "www.example.com")
        ∷ build_extension 0x0017 []
        ∷ build_extension 0x002a []
        ∷ build_supported_versions_extension (0x0304 ∷ 0x0303 ∷ [])
        ∷ build_signature_algorithms_extension
            (0x0403 ∷ 0x0804 ∷ 0x0401 ∷ 0x0503 ∷ 0x0805 ∷ 0x0501 ∷ 0x0806 ∷ 0x0601 ∷ [])
        ∷ build_supported_groups_extension (0x0a0a ∷ 0x11ec ∷ 0x001d ∷ 0x0017 ∷ 0x0018 ∷ [])
        ∷ build_key_share_extension
            ((0x11ec, replicate 1216 0xaa) ∷ (0x001d, replicate 32 0xbb) ∷ [])
        ∷ build_alpn_extension (codes "h2" ∷ codes "http/1.1" ∷ [])
        ∷ build_ec_point_formats_extension (0 ∷ [])
        ∷ build_compress_certificate_extension (2 ∷ [])
        ∷ build_record_size_limit_extension 16384
        ∷ build_extension ext_encrypted_client_hello (0x00 ∷ [])
        ∷ build_extension 0xcaca []
        ∷ []))
      (0x0a0a ∷ (tls_13_ciphers ++ legacy_ecdhe_ciphers))

unfoldable pub build_firefox_2026_clienthello : Bytes
unfolding build_clienthello_custom_ciphers build_alpn_extension build_ec_point_formats_extension
    build_extension build_key_share_extension build_record_size_limit_extension
    build_signature_algorithms_extension build_sni_extension build_supported_groups_extension
    build_supported_versions_extension
build_firefox_2026_clienthello =
    build_clienthello_custom_ciphers
      (extend_all (
        build_sni_extension (codes "www.example.com")
        ∷ build_extension 0x0017 []
        ∷ build_supported_versions_extension (0x0304 ∷ 0x0303 ∷ [])
        ∷ build_signature_algorithms_extension
            (0x0403 ∷ 0x0503 ∷ 0x0603 ∷ 0x0804 ∷ 0x0805 ∷ 0x0806 ∷ 0x0401 ∷ 0x0501 ∷ [])
        ∷ build_supported_groups_extension
            (0x11ec ∷ 0x001d ∷ 0x0017 ∷ 0x0018 ∷ 0x0019 ∷ 0x0100 ∷ 0x0101 ∷ [])
        ∷ build_key_share_extension
            ((0x11ec, replicate 1216 0xaa) ∷ (0x001d, replicate 32 0xbb) ∷ [])
        ∷ build_alpn_extension (codes "h2" ∷ codes "http/1.1" ∷ [])
        ∷ build_ec_point_formats_extension (0 ∷ [])
        ∷ build_record_size_limit_extension 16384
        ∷ []))
      (tls_13_ciphers ++ legacy_ecdhe_ciphers)

unfoldable pub build_safari_macos15_clienthello : Bytes
unfolding build_clienthello_custom_ciphers build_alpn_extension build_ec_point_formats_extension
    build_extension build_key_share_extension build_signature_algorithms_extension
    build_sni_extension build_supported_groups_extension build_supported_versions_extension
build_safari_macos15_clienthello =
    build_clienthello_custom_ciphers
      (extend_all (
        build_sni_extension (codes "www.example.com")
        ∷ build_extension 0x0017 []
        ∷ build_supported_versions_extension (0x0304 ∷ 0x0303 ∷ [])
        ∷ build_signature_algorithms_extension (0x0403 ∷ 0x0804 ∷ 0x0401 ∷ 0x0503 ∷ 0x0203 ∷ [])
        ∷ build_supported_groups_extension (0x001d ∷ 0x0017 ∷ 0x0018 ∷ [])
        ∷ build_key_share_extension ((0x001d, replicate 32 0xbb) ∷ (0x0017, replicate 65 0xcc) ∷ [])
        ∷ build_alpn_extension (codes "h2" ∷ codes "http/1.1" ∷ [])
        ∷ build_ec_point_formats_extension (0 ∷ [])
        ∷ []))
      (tls_13_ciphers ++ legacy_ecdhe_ciphers)

unfoldable pub build_curl_openssl_clienthello : Bytes
unfolding build_clienthello_custom_ciphers build_extension build_key_share_extension
    build_signature_algorithms_extension build_sni_extension build_supported_groups_extension
    build_supported_versions_extension
build_curl_openssl_clienthello =
    build_clienthello_custom_ciphers
      (extend_all (
        build_sni_extension (codes "www.example.com")
        ∷ build_extension 0x0017 []
        ∷ build_supported_versions_extension (0x0304 ∷ 0x0303 ∷ [])
        ∷ build_signature_algorithms_extension (0x0403 ∷ 0x0804 ∷ 0x0401 ∷ [])
        ∷ build_supported_groups_extension (0x001d ∷ 0x0017 ∷ [])
        ∷ build_key_share_extension ((0x001d, replicate 32 0xbb) ∷ [])
        ∷ []))
      (tls_13_ciphers ++ legacy_ecdhe_ciphers)

unfoldable pub build_go_clienthello : Bytes
unfolding build_clienthello_custom_ciphers build_alpn_extension build_ec_point_formats_extension
    build_extension build_key_share_extension build_signature_algorithms_extension
    build_sni_extension build_supported_groups_extension build_supported_versions_extension
build_go_clienthello =
    build_clienthello_custom_ciphers
      (extend_all (
        build_sni_extension (codes "www.example.com")
        ∷ build_extension 0x0017 []
        ∷ build_supported_versions_extension (0x0304 ∷ 0x0303 ∷ [])
        ∷ build_signature_algorithms_extension (0x0403 ∷ 0x0804 ∷ 0x0401 ∷ 0x0503 ∷ [])
        ∷ build_supported_groups_extension (0x001d ∷ 0x0017 ∷ 0x0018 ∷ [])
        ∷ build_key_share_extension ((0x001d, replicate 32 0xbb) ∷ [])
        ∷ build_alpn_extension (codes "h2" ∷ codes "http/1.1" ∷ [])
        ∷ build_ec_point_formats_extension (0 ∷ [])
        ∷ []))
      (tls_13_ciphers ++ legacy_ecdhe_ciphers)

unfoldable pub build_python_requests_clienthello : Bytes
unfolding build_clienthello_custom_ciphers build_extension build_key_share_extension
    build_signature_algorithms_extension build_sni_extension build_supported_groups_extension
    build_supported_versions_extension
build_python_requests_clienthello =
    build_clienthello_custom_ciphers
      (extend_all (
        build_sni_extension (codes "www.example.com")
        ∷ build_extension 0x0017 []
        ∷ build_supported_versions_extension (0x0304 ∷ 0x0303 ∷ [])
        ∷ build_signature_algorithms_extension (0x0403 ∷ 0x0804 ∷ 0x0401 ∷ 0x0503 ∷ [])
        ∷ build_supported_groups_extension (0x001d ∷ 0x0017 ∷ [])
        ∷ build_key_share_extension ((0x001d, replicate 32 0xbb) ∷ [])
        ∷ []))
      (tls_13_ciphers ++ legacy_ecdhe_ciphers)

unfoldable pub build_ios_urlsession_clienthello : Bytes
unfolding build_clienthello_custom_ciphers build_alpn_extension build_ec_point_formats_extension
    build_extension build_key_share_extension build_signature_algorithms_extension
    build_sni_extension build_supported_groups_extension build_supported_versions_extension
build_ios_urlsession_clienthello =
    build_clienthello_custom_ciphers
      (extend_all (
        build_sni_extension (codes "www.example.com")
        ∷ build_extension 0x0017 []
        ∷ build_supported_versions_extension (0x0304 ∷ 0x0303 ∷ [])
        ∷ build_signature_algorithms_extension (0x0403 ∷ 0x0804 ∷ 0x0401 ∷ 0x0503 ∷ [])
        ∷ build_supported_groups_extension (0x001d ∷ 0x0017 ∷ 0x0018 ∷ [])
        ∷ build_key_share_extension ((0x001d, replicate 32 0xbb) ∷ (0x0017, replicate 65 0xcc) ∷ [])
        ∷ build_alpn_extension (codes "h2" ∷ codes "http/1.1" ∷ [])
        ∷ build_ec_point_formats_extension (0 ∷ [])
        ∷ []))
      (tls_13_ciphers ++ legacy_ecdhe_ciphers)

unfoldable pub build_android_okhttp_clienthello : Bytes
unfolding build_clienthello_custom_ciphers build_alpn_extension build_ec_point_formats_extension
    build_extension build_key_share_extension build_signature_algorithms_extension
    build_sni_extension build_supported_groups_extension build_supported_versions_extension
build_android_okhttp_clienthello =
    build_clienthello_custom_ciphers
      (extend_all (
        build_sni_extension (codes "www.example.com")
        ∷ build_extension 0x0017 []
        ∷ build_supported_versions_extension (0x0304 ∷ 0x0303 ∷ [])
        ∷ build_signature_algorithms_extension (0x0403 ∷ 0x0804 ∷ 0x0401 ∷ 0x0503 ∷ 0x0805 ∷ [])
        ∷ build_supported_groups_extension (0x001d ∷ 0x0017 ∷ 0x0018 ∷ 0x0019 ∷ [])
        ∷ build_key_share_extension ((0x001d, replicate 32 0xbb) ∷ [])
        ∷ build_alpn_extension (codes "h2" ∷ codes "http/1.1" ∷ [])
        ∷ build_ec_point_formats_extension (0 ∷ [])
        ∷ []))
      (tls_13_ciphers ++ legacy_ecdhe_ciphers)

unfoldable pub build_cloudflare_ech_clienthello : Bytes
unfolding build_clienthello_custom_ciphers build_alpn_extension build_ec_point_formats_extension
    build_extension build_key_share_extension build_signature_algorithms_extension
    build_sni_extension build_supported_groups_extension build_supported_versions_extension
build_cloudflare_ech_clienthello =
    build_clienthello_custom_ciphers
      (extend_all (
        build_extension 0x0a0a []
        ∷ build_sni_extension cloudflare_ech_outer_sni
        ∷ build_extension 0x0017 []
        ∷ build_supported_versions_extension (0x0304 ∷ 0x0303 ∷ [])
        ∷ build_signature_algorithms_extension (0x0403 ∷ 0x0804 ∷ 0x0401 ∷ [])
        ∷ build_supported_groups_extension (0x11ec ∷ 0x001d ∷ 0x0017 ∷ [])
        ∷ build_key_share_extension
            ((0x11ec, replicate 1216 0xaa) ∷ (0x001d, replicate 32 0xbb) ∷ [])
        ∷ build_alpn_extension (codes "h2" ∷ codes "http/1.1" ∷ [])
        ∷ build_ec_point_formats_extension (0 ∷ [])
        ∷ build_extension ext_encrypted_client_hello (0x00 ∷ [])
        ∷ []))
      (0x0a0a ∷ tls_13_ciphers)

unfoldable pub build_pq_chrome_clienthello : Bytes
unfolding build_clienthello_custom_ciphers build_alpn_extension build_key_share_extension
    build_signature_algorithms_extension build_sni_extension build_supported_groups_extension
    build_supported_versions_extension
build_pq_chrome_clienthello =
    build_clienthello_custom_ciphers
      (extend_all (
        build_sni_extension (codes "www.example.com")
        ∷ build_supported_versions_extension (0x0304 ∷ 0x0303 ∷ [])
        ∷ build_signature_algorithms_extension (0x0403 ∷ 0x0804 ∷ 0x0401 ∷ [])
        ∷ build_supported_groups_extension (0x11ec ∷ 0x001d ∷ 0x0017 ∷ [])
        ∷ build_key_share_extension
            ((0x11ec, replicate real_mlkem768_pubkey_len 0xab) ∷ (0x001d, replicate 32 0xcd) ∷ [])
        ∷ build_alpn_extension (codes "h2" ∷ codes "http/1.1" ∷ [])
        ∷ []))
      (tls_13_ciphers ++ legacy_ecdhe_ciphers)
