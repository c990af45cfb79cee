-- ===== src/Sni/Types.antt =====
-- crates/aegiuw-core/src/sni.rs: the constants and the data types. A `str` is its bytes, a `u16` a
-- number. A `Cow` field of a record stands for its content, by which Rust compares it.
use aegiuw.Prelude.{Bytes, ℕ, ◌+◌, ◌*◌, Bool, Option, List}

abbrev pub ext_server_name : ℕ
ext_server_name = 0x0000

abbrev pub ext_encrypted_client_hello : ℕ
ext_encrypted_client_hello = 0xfe0d

abbrev pub ext_pre_shared_key : ℕ
ext_pre_shared_key = 0x0029

abbrev pub ext_alpn : ℕ
ext_alpn = 0x0010

abbrev pub ext_supported_versions : ℕ
ext_supported_versions = 0x002b

abbrev pub ext_early_data : ℕ
ext_early_data = 0x002a

abbrev pub ext_compress_certificate : ℕ
ext_compress_certificate = 0x001b

abbrev pub ext_record_size_limit : ℕ
ext_record_size_limit = 0x001c

abbrev pub ext_signature_algorithms : ℕ
ext_signature_algorithms = 0x000d

abbrev pub ext_supported_groups : ℕ
ext_supported_groups = 0x000a

abbrev pub ext_ec_point_formats : ℕ
ext_ec_point_formats = 0x000b

abbrev pub ext_key_share : ℕ
ext_key_share = 0x0033

abbrev pub content_type_handshake : ℕ
content_type_handshake = 22

abbrev pub handshake_type_client_hello : ℕ
handshake_type_client_hello = 1

abbrev pub name_type_host_name : ℕ
name_type_host_name = 0

abbrev pub tls_legacy_version : ℕ
tls_legacy_version = 0x0303

abbrev pub max_handshake_bytes : ℕ
max_handshake_bytes = 64 * 1024

abbrev pub max_record_fragment : ℕ
max_record_fragment = 16384 + 256

pub data SniOutcome : Type 0 where
  cleartext : Bytes → SniOutcome
  encrypted : SniOutcome
  not_found : SniOutcome
  malformed : SniOutcome

pub record ClientHelloMetadata : Type 0 where
  pub host : Option Bytes
  pub ech_present : Bool
  pub alpn_protocols : Option (List Bytes)
  pub supported_versions : Option (List ℕ)
  pub key_share_groups : Option (List ℕ)
  pub psk_present : Bool
  pub early_data_present : Bool
  pub compress_certificate_present : Bool
  pub record_size_limit : Option ℕ
  pub signature_algorithms : Option (List ℕ)
  pub supported_groups : Option (List ℕ)
  pub ec_point_formats : Option Bytes
  pub extension_order : List ℕ
  pub cipher_suites : List ℕ

-- `Cow<'_, [u8]>`.
pub data Cow : Type 0 where
  borrowed : Bytes → Cow
  owned : Bytes → Cow

abbrev pub into_owned : Cow → Bytes
into_owned (borrowed b) = b
into_owned (owned b) = b

pub data ServerNameOutcome : Type 0 where
  host : Bytes → ServerNameOutcome
  skip : ServerNameOutcome
  malformed : ServerNameOutcome
