-- ===== src/Sni/Offers.antt =====
-- A hello by what it offers: the extensions that crates/aegiuw-core/src/sni.rs reads, each with its
-- content, how the builders of its tests write them, and what the metadata say of them.
pub mod Settle
pub mod Told
pub mod RoundTrip
use aegiuw.Prelude.{◌==◌, Bytes, length, is_empty, AllOk, ℕ, ◌≤◌, ◌<◌, ◌≡◌, Bool, false, ◌||◌, List}
use aegiuw.Sni.Types.{
  ext_server_name, ext_encrypted_client_hello, ext_pre_shared_key, ext_alpn, ext_supported_versions,
  ext_early_data, ext_compress_certificate, ext_record_size_limit, ext_signature_algorithms,
  ext_supported_groups, ext_ec_point_formats, ext_key_share,
}
use aegiuw.Sni.Std.{strip_dot}
use aegiuw.Sni.Wire.{u16_bytes, server_name_list}
use aegiuw.Sni.Wire.Extensions.{u8_body, protocol_item}
use aegiuw.Sni.ServerName.Valid.{IsHostName}
use aegiuw.Sni.Lists.Written.{encode_all}
use aegiuw.Sni.Lists.RoundTrip.{IsU16, IsProtocol, IsShare, share_bytes, u16_prefixed}

pub data Offer : Type 0 where
  server_name : Bytes → Offer
  encrypted_client_hello : Bytes → Offer
  pre_shared_key : Bytes → Offer
  alpn : List Bytes → Offer
  supported_versions : List ℕ → Offer
  key_share : List (ℕ × Bytes) → Offer
  early_data : Bytes → Offer
  compress_certificate : Bytes → Offer
  record_size_limit : ℕ → Offer
  signature_algorithms : List ℕ → Offer
  supported_groups : List ℕ → Offer
  ec_point_formats : Bytes → Offer
  unread : ℕ → Bytes → Offer

unfoldable pub type_of : Offer → ℕ
type_of (server_name host) = ext_server_name
type_of (encrypted_client_hello x) = ext_encrypted_client_hello
type_of (pre_shared_key x) = ext_pre_shared_key
type_of (alpn ps) = ext_alpn
type_of (supported_versions vs) = ext_supported_versions
type_of (key_share ss) = ext_key_share
type_of (early_data x) = ext_early_data
type_of (compress_certificate x) = ext_compress_certificate
type_of (record_size_limit n) = ext_record_size_limit
type_of (signature_algorithms ns) = ext_signature_algorithms
type_of (supported_groups ns) = ext_supported_groups
type_of (ec_point_formats fs) = ext_ec_point_formats
type_of (unread t x) = t

-- The content of the extension.
unfoldable pub payload_of : Offer → Bytes
unfolding server_name_list u8_body u16_bytes
payload_of (server_name host) = server_name_list host
payload_of (encrypted_client_hello x) = x
payload_of (pre_shared_key x) = x
payload_of (alpn ps) = u16_prefixed (encode_all protocol_item ps)
payload_of (supported_versions vs) = u8_body (encode_all u16_bytes vs)
payload_of (key_share ss) = u16_prefixed (encode_all share_bytes ss)
payload_of (early_data x) = x
payload_of (compress_certificate x) = x
payload_of (record_size_limit n) = u16_bytes n
payload_of (signature_algorithms ns) = u16_prefixed (encode_all u16_bytes ns)
payload_of (supported_groups ns) = u16_prefixed (encode_all u16_bytes ns)
payload_of (ec_point_formats fs) = u8_body fs
payload_of (unread t x) = x

abbrev pub on_wire : Offer → ℕ × Bytes
on_wire o = (type_of o, payload_of o)

-- A type that has no arm of its own in the scan.
abbrev pub is_read : ℕ → Bool
is_read t =
    t == ext_server_name
    || t == ext_encrypted_client_hello
    || t == ext_pre_shared_key
    || t == ext_alpn
    || t == ext_supported_versions
    || t == ext_key_share
    || t == ext_early_data
    || t == ext_compress_certificate
    || t == ext_record_size_limit
    || t == ext_signature_algorithms
    || t == ext_supported_groups
    || t == ext_ec_point_formats

-- What the extensions may hold: the RFCs' bounds.
abbrev pub IsOffer : Offer → Type 0
IsOffer (server_name host) = IsHostName host × (strip_dot host ≡ host)
IsOffer (alpn ps) = AllOk IsProtocol ps × (length (encode_all protocol_item ps) < 65536)
IsOffer (supported_versions vs) = AllOk IsU16 vs × (is_empty vs ≡ false) × (length vs < 128)
IsOffer (key_share ss) = AllOk IsShare ss × (length (encode_all share_bytes ss) < 65536)
IsOffer (record_size_limit n) = (64 ≤ n) × (n ≤ 16385)
IsOffer (signature_algorithms ns) = AllOk IsU16 ns × (is_empty ns ≡ false) × (length ns < 32768)
IsOffer (supported_groups ns) = AllOk IsU16 ns × (is_empty ns ≡ false) × (length ns < 32768)
IsOffer (ec_point_formats fs) = (is_empty fs ≡ false) × (length fs < 256)
IsOffer (unread t x) = is_read t ≡ false
IsOffer (encrypted_client_hello x) = Unit
IsOffer (pre_shared_key x) = Unit
IsOffer (early_data x) = Unit
IsOffer (compress_certificate x) = Unit
