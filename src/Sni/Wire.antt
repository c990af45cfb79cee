-- ===== src/Sni/Wire.antt =====
-- The builders of wire bytes: those of the tests of crates/aegiuw-core/src/sni.rs, which the demo of
-- the daemon repeats.
pub mod Extensions
pub mod Clients
use aegiuw.Prelude.{
  leb, if◌then◌else◌, Bytes, length, take, drop, replicate, map_option, ℕ, ◌-◌, ◌/◌, ◌%◌, min,
  Option, none, some, List, [], ◌∷◌, ◌++◌,
}
use aegiuw.Sni.Types.{
  handshake_type_client_hello, content_type_handshake, tls_legacy_version, name_type_host_name,
  ext_server_name,
}

-- `(n as u16).to_be_bytes()`.
unfoldable pub u16_bytes : ℕ → Bytes
u16_bytes n = (n % 65536 / 256) ∷ (n % 256) ∷ []

-- The three low bytes of a `u32`.
unfoldable pub u24_bytes : ℕ → Bytes
u24_bytes n = (n / 65536 % 256) ∷ (n / 256 % 256) ∷ (n % 256) ∷ []

unfoldable pub wrap_record : ℕ → Bytes → Bytes
unfolding u16_bytes
wrap_record content_type payload =
    content_type ∷ 0x03 ∷ 0x01 ∷ (u16_bytes (length payload) ++ payload)

-- The body of a message; `n as u8` keeps the low byte.
unfoldable pub message_body : Bytes → ℕ → Bytes → Bytes → Bytes → Bytes
unfolding u16_bytes
message_body extensions legacy_version session_id cipher_suites compression_methods =
    u16_bytes legacy_version
    ++ (replicate 32 0xaa
        ++ ((length session_id % 256)
            ∷ (session_id
                ++ (u16_bytes (length cipher_suites)
                    ++ (cipher_suites
                        ++ ((length compression_methods % 256)
                            ∷ (compression_methods
                                ++ (u16_bytes (length extensions) ++ extensions))))))))

unfoldable pub build_handshake_message_custom : Bytes → ℕ → Bytes → Bytes → Bytes → Bytes
unfolding message_body u24_bytes
build_handshake_message_custom extensions legacy_version session_id cipher_suites
      compression_methods =
    let body =
      message_body extensions legacy_version session_id cipher_suites compression_methods in
    handshake_type_client_hello ∷ (u24_bytes (length body) ++ body)

unfoldable pub build_extension : ℕ → Bytes → Bytes
unfolding u16_bytes
build_extension ext_type payload = u16_bytes ext_type ++ (u16_bytes (length payload) ++ payload)

-- A `ServerNameList` of one `host_name`.
unfoldable pub server_name_list : Bytes → Bytes
unfolding u16_bytes
server_name_list host =
    let entry = name_type_host_name ∷ (u16_bytes (length host) ++ host) in
    u16_bytes (length entry) ++ entry

unfoldable pub build_sni_extension : Bytes → Bytes
unfolding server_name_list build_extension
build_sni_extension host = build_extension ext_server_name (server_name_list host)

abbrev pub default_cipher_suites : Bytes
default_cipher_suites = 0x13 ∷ 0x01 ∷ []

unfoldable pub build_handshake_message : Bytes → Bytes
unfolding build_handshake_message_custom
build_handshake_message extensions =
    build_handshake_message_custom extensions tls_legacy_version [] default_cipher_suites
      (0x00 ∷ [])

unfoldable pub build_handshake_message_with_version : Bytes → ℕ → Bytes
unfolding build_handshake_message_custom
build_handshake_message_with_version extensions legacy_version =
    build_handshake_message_custom extensions legacy_version [] default_cipher_suites (0x00 ∷ [])

unfoldable pub build_handshake_message_with_compression : Bytes → Bytes → Bytes
unfolding build_handshake_message_custom
build_handshake_message_with_compression extensions compression_methods =
    build_handshake_message_custom extensions tls_legacy_version [] default_cipher_suites
      compression_methods

unfoldable pub build_handshake_message_with_cipher_suites : Bytes → Bytes → Bytes
unfolding build_handshake_message_custom
build_handshake_message_with_cipher_suites extensions cipher_suites =
    build_handshake_message_custom extensions tls_legacy_version [] cipher_suites (0x00 ∷ [])

unfoldable pub build_handshake_message_with_session_id : Bytes → Bytes → Bytes
unfolding build_handshake_message_custom
build_handshake_message_with_session_id extensions session_id =
    build_handshake_message_custom extensions tls_legacy_version session_id default_cipher_suites
      (0x00 ∷ [])

unfoldable pub build_client_hello : Bytes → Bytes
unfolding wrap_record build_handshake_message
build_client_hello extensions =
    wrap_record content_type_handshake (build_handshake_message extensions)

-- The loop over the splits and the last record; `none` is the panic of a slice that ends before it
-- begins.
unfoldable pub fragments_from : ℕ → Bytes → List ℕ → Option Bytes
unfolding wrap_record
fragments_from prev handshake [] =
    if leb prev (length handshake)
    then some (wrap_record content_type_handshake (drop prev handshake))
    else none
fragments_from prev handshake (split ∷ splits) =
    let split = min split (length handshake) in
    let rest = fragments_from split handshake splits in
    if leb prev split
    then map_option
        (λ out.
          wrap_record content_type_handshake (take (split - prev) (drop prev handshake)) ++ out)
        rest
    else none

unfoldable pub build_fragmented_records : Bytes → List ℕ → Option Bytes
unfolding fragments_from
build_fragmented_records handshake splits = fragments_from 0 handshake splits

-- A message with bytes behind its extensions.
unfoldable pub build_handshake_with_trailing_body_bytes : Bytes → Bytes → Bytes
unfolding message_body u24_bytes
build_handshake_with_trailing_body_bytes extensions trailing =
    let body =
      message_body extensions tls_legacy_version [] default_cipher_suites (0x00 ∷ []) ++ trailing in
    handshake_type_client_hello ∷ (u24_bytes (length body) ++ body)
