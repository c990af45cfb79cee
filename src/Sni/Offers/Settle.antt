-- ===== src/Sni/Offers/Settle.antt =====
-- One offer in the scan of the extensions.
use aegiuw.Prelude.{
  within, Bytes, length, is_empty, AllOk, ℕ, ◌+◌, ◌*◌, ◌/◌, ◌%◌, ◌<◌, ◌≡◌, refl, subst, true, false,
  some, List, [], ◌∷◌, map, arith,
}
use aegiuw.Cursor.Reading.{new-at, read_u16-at, read_u8_prefixed-last, remaining-at}
use aegiuw.Sni.Wire.{u16_bytes}
use aegiuw.Sni.Wire.Extensions.{u8_body, protocol_item}
use aegiuw.Sni.ServerName.Valid.{parse_server_name_extension-server_name_list}
use aegiuw.Sni.Lists.{
  parse_alpn_extension, parse_ec_point_formats_extension, parse_u16_prefixed_u16_list,
  parse_supported_versions_extension, parse_record_size_limit_extension,
}
use aegiuw.Sni.Lists.Written.{encode_all}
use aegiuw.Sni.Lists.RoundTrip.{
  IsU16, IsProtocol, protocol_bytes, u16_prefixed, length-u16s, parse_alpn_extension-encode,
  parse_key_share_extension-encode, parse_u16_prefixed_u16_list-encode,
  parse_supported_versions_extension-encode,
}
use aegiuw.Sni.Handshake.{Scan, handle_server_name, handle_extension}
use aegiuw.Sni.Offers.{
  Offer, server_name, encrypted_client_hello, pre_shared_key, alpn, supported_versions, key_share,
  early_data, compress_certificate, record_size_limit, signature_algorithms, supported_groups,
  ec_point_formats, unread, type_of, payload_of, IsOffer,
}

-- The scan behind an offer.
unfoldable pub settle : Offer → Scan → Scan
settle (server_name h) s = record s { sni_host = some h }
settle (encrypted_client_hello x) s = record s { meta = record (s.meta) { ech_present = true } }
settle (alpn ps) s = record s { meta = record (s.meta) { alpn_protocols = some ps } }
settle (supported_versions vs) s = record s {
  meta = record (s.meta) { supported_versions = some vs };
}
settle (key_share ss) s = record s {
  meta = record (s.meta) { key_share_groups = some (map (λ (group, _). group) ss) };
}
settle (early_data x) s = record s { meta = record (s.meta) { early_data_present = true } }
settle (compress_certificate x) s = record s {
  meta = record (s.meta) { compress_certificate_present = true };
}
settle (record_size_limit n) s = record s { meta = record (s.meta) { record_size_limit = some n } }
settle (signature_algorithms ns) s = record s {
  meta = record (s.meta) { signature_algorithms = some ns };
}
settle (supported_groups ns) s = record s { meta = record (s.meta) { supported_groups = some ns } }
settle (ec_point_formats fs) s = record s { meta = record (s.meta) { ec_point_formats = some fs } }
settle (pre_shared_key x) s = s
settle (unread t x) s = s

protocol_items :
    (ps : List Bytes)
    → AllOk IsProtocol ps
    → encode_all protocol_item ps ≡ encode_all protocol_bytes ps
protocol_items [] k = refl
protocol_items (p ∷ ps) k =
    let n : length p % 256 ≡ length p = omega (arith, k.0.1) in rw (n, protocol_items ps k.1) refl

read-alpn :
    (ps : List Bytes)
    → IsOffer (alpn ps)
    → parse_alpn_extension (u16_prefixed (encode_all protocol_item ps)) ≡ some ps
read-alpn ps (k, size) =
    let same = protocol_items ps k in
    rw same (parse_alpn_extension-encode ps k (subst (λ s. length s < 65536) same size))

read-u16s :
    (ns : List ℕ)
    → AllOk IsU16 ns × (is_empty ns ≡ false) × (length ns < 32768)
    → parse_u16_prefixed_u16_list (u16_prefixed (encode_all u16_bytes ns)) ≡ some ns
read-u16s [] k = absurd (cc)
read-u16s (n ∷ ns) k = (parse_u16_prefixed_u16_list-encode n ns k.0 (omega (arith, k.2))).0

read-versions :
    (vs : List ℕ)
    → IsOffer (supported_versions vs)
    → parse_supported_versions_extension (u8_body (encode_all u16_bytes vs)) ≡ some vs
unfolding u8_body
read-versions [] k = absurd (cc)
read-versions (n ∷ ns) k =
    let size : length (encode_all u16_bytes (n ∷ ns)) % 256
        ≡ length (encode_all u16_bytes (n ∷ ns)) =
      omega (arith, length-u16s (n ∷ ns), k.2) in
    rw size (parse_supported_versions_extension-encode n ns k.0 (omega (arith, k.2))).0

read-formats :
    (fs : Bytes)
    → IsOffer (ec_point_formats fs)
    → parse_ec_point_formats_extension (u8_body fs) ≡ some fs
unfolding u8_body parse_ec_point_formats_extension
read-formats fs k =
    let size : length fs % 256 ≡ length fs = omega (arith, k.1) in
    rw (size, new-at (length fs ∷ fs), read_u8_prefixed-last [] (length fs) fs refl, k.0) refl

read-limit :
    (n : ℕ)
    → IsOffer (record_size_limit n)
    → parse_record_size_limit_extension (u16_bytes n) ≡ some n
unfolding u16_bytes parse_record_size_limit_extension
read-limit n k =
    let hi = n % 65536 / 256 in
    let lo = n % 256 in
    let num : hi * 256 + lo ≡ n = omega (arith, k.1) in
    let fits : within 64 16385 n ≡ true = ground arith in
    rw (new-at (hi ∷ lo ∷ []), read_u16-at [] [] hi lo, remaining-at, num, fits) refl

-- The arm of the scan for an offer that the RFCs allow.
pub handle_extension-settle :
    (o : Offer) (s : Scan)
    → IsOffer o
    → handle_extension (type_of o) (payload_of o) s ≡ some (settle o s)
unfolding handle_extension handle_server_name type_of payload_of settle
handle_extension-settle (server_name h) s k =
    rw (parse_server_name_extension-server_name_list h k.0 k.1) refl
handle_extension-settle (encrypted_client_hello x) s k = refl
handle_extension-settle (pre_shared_key x) s k = refl
handle_extension-settle (alpn ps) s k = rw (read-alpn ps k) refl
handle_extension-settle (supported_versions vs) s k = rw (read-versions vs k) refl
handle_extension-settle (key_share ss) s k = rw (parse_key_share_extension-encode ss k.0 k.1) refl
handle_extension-settle (early_data x) s k = refl
handle_extension-settle (compress_certificate x) s k = refl
handle_extension-settle (record_size_limit n) s k = rw (read-limit n k) refl
handle_extension-settle (signature_algorithms ns) s k = rw (read-u16s ns k) refl
handle_extension-settle (supported_groups ns) s k = rw (read-u16s ns k) refl
handle_extension-settle (ec_point_formats fs) s k = rw (read-formats fs k) refl
handle_extension-settle (unread t x) s k = ground arith
