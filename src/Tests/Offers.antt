-- ===== src/Tests/Offers.antt =====
-- The claims about whole hellos, at the hello of curl.
use aegiuw.Prelude.{
  if◌then◌else◌, Bytes, length, take, replicate, AllOk, is_some, ◌≤◌, ◌≡◌, refl, sym, subst, true,
  not, ◌&&◌, some, List, [], ◌∷◌, ◌++◌, map, append-nil, arith,
}
use aegiuw.Prelude.Text.{codes}
use aegiuw.Cursor.Octets.{AreOctets}
use aegiuw.Sni.Types.{ClientHelloMetadata, tls_legacy_version, max_handshake_bytes}
use aegiuw.Sni.Std.{
  split_dots, strip_dot, is_ip_addr, to_digit, read_digits, read_number, read_char, separator,
  octet, read_ipv4_addr, read_groups as read_address_groups, read_ipv6_addr,
}
use aegiuw.Sni.ServerName.Valid.{IsHostName}
use aegiuw.Sni.Wire.{u16_bytes, build_handshake_message_custom}
use aegiuw.Sni.Wire.Clients.{build_curl_openssl_clienthello}
use aegiuw.Sni.Reassembly.Fragments.{records_of, joined, FitRecords}
use aegiuw.Sni.Handshake.{u16_chunks}
use aegiuw.Sni.Handshake.Ranges.{HasTypes}
use aegiuw.Sni.Handshake.Scanning.{encode_extensions, FitU16}
use aegiuw.Sni.Handshake.Header.{IsHello, IsMessage, build-IsMessage}
use aegiuw.Sni.Handshake.Invariant.{Distinct, PskLast}
use aegiuw.Sni.Extract.Preview.{malformed_hex_preview}
use aegiuw.Sni.Extract.{extract_sni, parse_client_hello_full}
use aegiuw.Sni.Extract.Hosts.{hello_of}
use aegiuw.Sni.Extract.Ranges.{parse_client_hello_full-HasTypes}
use aegiuw.Sni.Extract.Trace.{Features, dumps_of, extract_sni_traced, extract_sni_traced-dumps}
use aegiuw.Sni.Offers.{
  Offer, server_name, unread, supported_versions, signature_algorithms, supported_groups, key_share,
  type_of, payload_of, on_wire, IsOffer,
}
use aegiuw.Sni.Offers.Told.{told}
use aegiuw.Sni.Offers.RoundTrip.{parse_client_hello_full-told}
use aegiuw.Inspect.{ok, hex_digits, decode_hex}
use aegiuw.Inspect.Hex.{encode_hex, decode_hex-encode_hex}
use aegiuw.Inspect.Report.{inspect}
use aegiuw.Inspect.Printed.{Unicode, print_input}
use aegiuw.Inspect.Printed.Rows.{HasRow, read_groups-inspect}
use aegiuw.Inspect.Printed.Words.{read_groups}

abbrev www : Bytes
www = codes "www.example.com"

www-IsHostName : IsHostName www
unfolding split_dots is_ip_addr to_digit read_digits read_number read_char separator octet
    read_ipv4_addr read_address_groups read_ipv6_addr
www-IsHostName = record {
  ne_nil = λ e. cc e;
  short = omega arith;
  labels = (omega arith, (omega arith, (omega arith, tt)));
  no_address = refl;
  ldh = refl;
}

abbrev curl : List Offer
curl =
    server_name www
    ∷ unread 0x0017 []
    ∷ supported_versions (0x0304 ∷ 0x0303 ∷ [])
    ∷ signature_algorithms (0x0403 ∷ 0x0804 ∷ 0x0401 ∷ [])
    ∷ supported_groups (0x001d ∷ 0x0017 ∷ [])
    ∷ key_share ((0x001d, replicate 32 0xbb) ∷ [])
    ∷ []

www-strip_dot : strip_dot www ≡ www
unfolding strip_dot
www-strip_dot = refl

curl-AllOk : AllOk IsOffer curl
unfolding u16_bytes
curl-AllOk = (
  (www-IsHostName, www-strip_dot),
  (
    refl,
    (
      (omega arith, refl, omega arith),
      (
        (omega arith, refl, omega arith),
        ((omega arith, refl, omega arith), ((omega arith, omega arith), tt)),
      ),
    ),
  ),
)

abbrev curl_suites : Bytes
curl_suites =
    0x13 ∷ 0x01 ∷ 0x13 ∷ 0x02 ∷ 0x13 ∷ 0x03 ∷ 0xc0 ∷ 0x2b ∷ 0xc0 ∷ 0x2f ∷ 0xc0 ∷ 0x2c ∷ 0xc0 ∷ 0x30
    ∷ []

abbrev curl_message : Bytes
curl_message =
    build_handshake_message_custom (encode_extensions (map on_wire curl)) tls_legacy_version []
      curl_suites (0x00 ∷ [])

abbrev curl_fragments : List Bytes
curl_fragments = curl_message ∷ []

curl-FitU16 : FitU16 (map on_wire curl)
unfolding type_of payload_of
curl-FitU16 = omega arith

curl-IsHello : IsHello (encode_extensions (map on_wire curl)) [] curl_suites (0x00 ∷ [])
unfolding encode_extensions type_of payload_of
curl-IsHello = record {
  session_short = omega arith;
  suites_ne_nil = refl;
  suites_even = refl;
  suites_short = omega arith;
  compression_short = omega arith;
  compression_null = refl;
  exts_short = omega arith;
}

curl-IsMessage :
    IsMessage
      (encode_extensions (map on_wire curl))
      []
      curl_suites
      (0x00 ∷ [])
      (joined curl_fragments)
curl-IsMessage =
    subst (IsMessage (encode_extensions (map on_wire curl)) [] curl_suites (0x00 ∷ []))
      (sym (append-nil curl_message))
      (build-IsMessage (encode_extensions (map on_wire curl)) [] curl_suites (0x00 ∷ []))

curl-length : length (joined curl_fragments) ≤ max_handshake_bytes
unfolding build_handshake_message_custom encode_extensions type_of payload_of
curl-length = omega arith

curl-FitRecords : FitRecords curl_fragments
unfolding build_handshake_message_custom encode_extensions type_of payload_of
curl-FitRecords = (omega arith, tt)

-- The bytes are those of the builder.
curl-build : records_of curl_fragments ≡ build_curl_openssl_clienthello
unfolding records_of build_curl_openssl_clienthello build_handshake_message_custom encode_extensions
    type_of payload_of
curl-build = refl

curl-Distinct : Distinct (map type_of curl)
unfolding type_of
curl-Distinct = (refl, (refl, (refl, (refl, (refl, (refl, tt))))))

curl-PskLast : PskLast (map type_of curl)
unfolding type_of
curl-PskLast = omega arith

abbrev curl_bytes : Bytes
curl_bytes = records_of curl_fragments ++ []

curl-AreOctets : AreOctets curl_bytes
unfolding records_of build_handshake_message_custom encode_extensions type_of payload_of
curl-AreOctets = omega arith

curl-parsed : parse_client_hello_full curl_bytes ≡ some (told (u16_chunks curl_suites) curl)
curl-parsed =
    parse_client_hello_full-told curl [] curl_suites (0x00 ∷ []) curl_fragments [] curl-AllOk
      curl-Distinct curl-PskLast curl-FitU16 curl-IsHello curl-IsMessage curl-length curl-FitRecords

parse_client_hello_full-HasTypes_example : HasTypes (told (u16_chunks curl_suites) curl)
parse_client_hello_full-HasTypes_example =
    parse_client_hello_full-HasTypes curl_bytes (told (u16_chunks curl_suites) curl) curl-AreOctets
      curl-parsed

abbrev curl_meta : ClientHelloMetadata
curl_meta = told (u16_chunks curl_suites) curl

-- Texts as they are, and a digest of 32 bytes.
abbrev plain_texts : Unicode
plain_texts = record { debug_str = λ s. s; from_utf8_lossy = λ s. s }

abbrev digest : Bytes → Bytes
digest s = replicate 32 (length s)

curl-digits : hex_digits (encode_hex curl_bytes) ≡ encode_hex curl_bytes
unfolding hex_digits records_of build_handshake_message_custom encode_extensions type_of payload_of
curl-digits = refl

curl-decode_hex : decode_hex (encode_hex curl_bytes) ≡ ok curl_bytes
curl-decode_hex =
    decode_hex-encode_hex (encode_hex curl_bytes) curl_bytes curl-AreOctets curl-digits

read_groups-inspect_example :
    ((value : Bytes) × HasRow
        (codes "supported_groups")
        value
        (print_input plain_texts (inspect digest digest (encode_hex curl_bytes)))
      × (read_groups value ≡ curl_meta.supported_groups))
    × ((value : Bytes) × HasRow
          (codes "key_share_groups")
          value
          (print_input plain_texts (inspect digest digest (encode_hex curl_bytes)))
        × (read_groups value ≡ curl_meta.key_share_groups))
read_groups-inspect_example =
    read_groups-inspect plain_texts digest digest (encode_hex curl_bytes) curl_bytes curl_meta
      curl-AreOctets curl-decode_hex curl-parsed

abbrev forensic : Features
forensic = record { std = true; debug_malformed = true }

abbrev cut : Bytes
cut = 0x16 ∷ 0x03 ∷ 0x01 ∷ []

extract_sni_traced-dumps_example :
    ((extract_sni_traced forensic 12 cut).0 ≡ extract_sni cut)
    × (dumps_of forensic 12 cut ≡ (
        if forensic.debug_malformed && not (is_some (hello_of cut))
        then malformed_hex_preview cut ∷ []
        else []))
    × (decode_hex (malformed_hex_preview cut) ≡ ok (take 64 cut))
extract_sni_traced-dumps_example = extract_sni_traced-dumps forensic 12 cut (omega arith)
