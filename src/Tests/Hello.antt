-- ===== src/Tests/Hello.antt =====
-- The claims about the message and the outcome, at the message of the visit.
use aegiuw.Prelude.{
  ltb, leb, if◌then◌else◌, length, take, map_option, ◌+◌, ◌≤◌, ◌≡◌, refl, ap, ◌∙◌, subst, ◌&&◌,
  some, [], ◌∷◌, ◌++◌, map, arith,
}
use aegiuw.Sni.Types.{
  ClientHelloMetadata, ext_server_name, malformed, tls_legacy_version, content_type_handshake,
  max_record_fragment,
}
use aegiuw.Sni.Std.{strip_dot}
use aegiuw.Sni.ServerName.Valid.{parse_server_name_extension-server_name_list}
use aegiuw.Sni.Reassembly.Fragments.{records_of}
use aegiuw.Sni.Handshake.{
  Scan, note_type, handle_extension, handle_server_name, initial_scan, u16_chunks, publish_host,
  parse_handshake_message_full, scan_extensions,
}
use aegiuw.Sni.Handshake.Scanning.{scan_list, scan_one, encode_extensions, scan_extensions-encode}
use aegiuw.Sni.Handshake.Header.{parse_handshake_message_full-message}
use aegiuw.Sni.Handshake.Invariant.{IsClean, parse_handshake_message_full-IsClean}
use aegiuw.Sni.Extract.{extract_sni, parse_client_hello_full}
use aegiuw.Sni.Extract.Records.{
  parse_handshake_message_full-encode, outcome, extract_sni-records_of,
  parse_client_hello_full-records_of,
}
use aegiuw.Sni.Extract.Hosts.{Says, hello_of, extract_sni-Says}
use aegiuw.Sni.Wire.{
  u16_bytes, u24_bytes, message_body, build_handshake_message_custom, build_extension,
  server_name_list, wrap_record,
}
use aegiuw.Sni.Extract.Stream.{extract_sni-take}
use aegiuw.Sni.Reassembly.Totals.{IsWhole}
use aegiuw.Fingerprint.{without_grease}
use aegiuw.Fingerprint.Join.{split_on, read_numbers}
use aegiuw.Fingerprint.Ja3.{ja3_raw}
use aegiuw.Fingerprint.Ja3.Fields.{kept_groups, kept_formats}
use aegiuw.Fingerprint.OnWire.Types.{types_of}
use aegiuw.Fingerprint.OnWire.{ja3_raw-records_of}
use aegiuw.Risk.{allows_native_path}
use aegiuw.Daemon.{assess}
use aegiuw.Daemon.Stream.{assess-take}
use aegiuw.Tests.{
  outlook, github, visit, github-IsHostName, suites, null, extensions, message, fragments,
  extensions-FitU16, message-IsHello, fragments-FitRecords, joined-fragments, length-fragments,
  fragments-IsWhole, message-IsMessage, fragments-IsMessage,
}

extract_sni-Says_example : Says (extract_sni visit) (hello_of visit)
extract_sni-Says_example = extract_sni-Says visit

extract_sni-records_of_example :
    extract_sni (records_of fragments ++ 0x16 ∷ [])
    ≡ outcome (scan_list (initial_scan (u16_chunks suites)) extensions)
extract_sni-records_of_example =
    extract_sni-records_of extensions [] suites null fragments (0x16 ∷ []) extensions-FitU16
      message-IsHello fragments-IsMessage length-fragments fragments-FitRecords

scan_list-extensions :
    (s : Scan) × (scan_list (initial_scan (u16_chunks suites)) extensions ≡ some s)
unfolding scan_list scan_one handle_extension handle_server_name
scan_list-extensions = (
  record (note_type ext_server_name (initial_scan (u16_chunks suites))) { sni_host = some github },
  rw
      (parse_server_name_extension-server_name_list github github-IsHostName
        (unfold strip_dot in refl))
      refl,
)

parse-message : (m : ClientHelloMetadata) × (parse_handshake_message_full message ≡ some m)
parse-message =
    let (s, e) = scan_list-extensions in
    (
      publish_host s,
      parse_handshake_message_full-encode extensions [] suites null message extensions-FitU16
            message-IsHello message-IsMessage
          ∙ ap (map_option publish_host) e,
    )

parse-fragments :
    (m : ClientHelloMetadata) × (parse_client_hello_full (records_of fragments ++ 0x16 ∷ [])
      ≡ some m)
parse-fragments =
    let (s, e) = scan_list-extensions in
    (
      publish_host s,
      parse_client_hello_full-records_of extensions [] suites null fragments (0x16 ∷ [])
            extensions-FitU16 message-IsHello fragments-IsMessage length-fragments
            fragments-FitRecords
          ∙ ap (map_option publish_host) e,
    )

ja3_raw-records_of_example :
    map (read_numbers b'-') (split_on b',' (ja3_raw parse-fragments.0))
    ≡ (tls_legacy_version ∷ [])
      ∷ without_grease (u16_chunks suites)
      ∷ without_grease (types_of extensions)
      ∷ kept_groups parse-fragments.0
      ∷ kept_formats parse-fragments.0
      ∷ []
ja3_raw-records_of_example =
    ja3_raw-records_of extensions [] suites null fragments (0x16 ∷ []) parse-fragments.0
      extensions-FitU16 message-IsHello fragments-IsMessage length-fragments fragments-FitRecords
      parse-fragments.1

length-message : length message ≤ max_record_fragment
unfolding build_handshake_message_custom message_body u24_bytes u16_bytes encode_extensions
    build_extension server_name_list
length-message = omega arith

extract_sni-take_example :
    extract_sni (take 10 (wrap_record content_type_handshake message ++ 0x17 ∷ [])) ≡ (
      if ltb 10 (5 + length message)
      then malformed
      else extract_sni (wrap_record content_type_handshake message))
extract_sni-take_example =
    extract_sni-take message (0x17 ∷ []) 10 length-message
      (subst IsWhole joined-fragments fragments-IsWhole)

assess-take_example :
    allows_native_path
      (assess (take 200 (wrap_record content_type_handshake message ++ 0x17 ∷ [])) outlook).1
    ≡ (leb (5 + length message) 200
        && allows_native_path (assess (wrap_record content_type_handshake message) outlook).1)
assess-take_example =
    assess-take message (0x17 ∷ []) outlook 200 length-message
      (subst IsWhole joined-fragments fragments-IsWhole)

parse_handshake_message_full-message_example :
    parse_handshake_message_full message
    ≡ map_option publish_host
        (scan_extensions (encode_extensions extensions) (initial_scan (u16_chunks suites)))
parse_handshake_message_full-message_example =
    parse_handshake_message_full-message (encode_extensions extensions) [] suites null message
      message-IsHello message-IsMessage

parse_handshake_message_full-IsClean_example : IsClean parse-message.0
parse_handshake_message_full-IsClean_example =
    parse_handshake_message_full-IsClean message parse-message.1

scan_extensions-encode_example :
    scan_extensions (encode_extensions extensions ++ 7 ∷ []) (initial_scan [])
    ≡ scan_list (initial_scan []) extensions
scan_extensions-encode_example =
    scan_extensions-encode extensions (initial_scan []) (7 ∷ []) extensions-FitU16 (omega arith)
