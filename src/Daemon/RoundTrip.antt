-- ===== src/Daemon/RoundTrip.antt =====
-- The demo's connections of crates/aegiuw-daemon/src/main.rs, through the real parser.
use aegiuw.Prelude.{
  Bytes, length, length-append, ℕ, ◌+◌, ◌<◌, ◌≡◌, refl, sym, ap, ◌∙◌, subst, List, [], ◌∷◌, ◌++◌,
  append-nil, arith,
}
use aegiuw.Sni.Types.{
  cleartext, encrypted, tls_legacy_version, ext_server_name, ext_encrypted_client_hello,
}
use aegiuw.Sni.Std.{strip_dot}
use aegiuw.Sni.Wire.{
  u16_bytes, u24_bytes, message_body, build_handshake_message_custom, build_extension,
  server_name_list,
}
use aegiuw.Sni.ServerName.Valid.{IsHostName, parse_server_name_extension-server_name_list}
use aegiuw.Sni.Reassembly.Fragments.{records_of}
use aegiuw.Sni.Handshake.{
  initial_scan, u16_chunks, handle_extension, handle_server_name, note_type, publish_host,
}
use aegiuw.Sni.Handshake.Scanning.{scan_list, scan_one, encode_extensions, FitU16}
use aegiuw.Sni.Handshake.Header.{IsHello, IsMessage, build-IsMessage}
use aegiuw.Sni.Extract.{extract_sni, classify}
use aegiuw.Sni.Extract.Records.{outcome, extract_sni-records_of}
use aegiuw.Daemon.{client_hello, sni_extension, ech_then_decoy_sni}

abbrev suites : Bytes
suites = 0x13 ∷ 0x01 ∷ []

abbrev null : Bytes
null = 0x00 ∷ []

-- The demo's builder makes one record.
client_hello-records_of :
    (exts : Bytes)
    → client_hello exts
      ≡ records_of (build_handshake_message_custom exts tls_legacy_version [] suites null ∷ [])
        ++ []
unfolding client_hello records_of build_handshake_message_custom message_body u24_bytes
client_hello-records_of exts = rw (append-nil, append-nil) refl

length-hello :
    (exts : Bytes)
    → length (build_handshake_message_custom exts tls_legacy_version [] suites null)
      ≡ 47 + length exts
unfolding build_handshake_message_custom message_body u24_bytes u16_bytes
length-hello exts = omega arith

demo-IsHello : (exts : Bytes) → length exts < 65536 → IsHello exts [] suites null
demo-IsHello exts h = record {
  session_short = omega arith;
  suites_ne_nil = refl;
  suites_even = refl;
  suites_short = omega arith;
  compression_short = omega arith;
  compression_null = refl;
  exts_short = h;
}

-- The outcome of the demo's hello with any extensions of up to 16000 bytes.
extract_sni-client_hello :
    (es : List (ℕ × Bytes))
    → FitU16 es
    → length (encode_extensions es) < 16000
    → extract_sni (client_hello (encode_extensions es))
      ≡ outcome (scan_list (initial_scan (u16_chunks suites)) es)
extract_sni-client_hello es fit small =
    let exts = encode_extensions es in
    let f = build_handshake_message_custom exts tls_legacy_version [] suites null in
    let size = length-hello exts in
    rw (client_hello-records_of exts) (
      extract_sni-records_of es [] suites null (f ∷ []) [] fit (demo-IsHello exts (omega arith))
        (subst (IsMessage exts [] suites null) (sym (append-nil f))
          (build-IsMessage exts [] suites null))
        (omega (arith, length-append f [])) (omega arith, tt))

sni_extension-encode :
    (h : Bytes) → sni_extension h ≡ encode_extensions ((ext_server_name, server_name_list h) ∷ [])
unfolding sni_extension encode_extensions server_name_list build_extension
sni_extension-encode h = rw append-nil refl

length-sni_extension : (h : Bytes) → length (sni_extension h) ≡ 9 + length h
unfolding sni_extension u16_bytes
length-sni_extension h = omega arith

ech_then_decoy_sni-encode :
    (h : Bytes)
    → ech_then_decoy_sni h
      ≡ encode_extensions
          ((ext_encrypted_client_hello, []) ∷ (ext_server_name, server_name_list h) ∷ [])
unfolding ech_then_decoy_sni encode_extensions server_name_list build_extension
ech_then_decoy_sni-encode h = rw append-nil refl

length-ech_then_decoy_sni :
    (h : Bytes) → length (ech_then_decoy_sni h) ≡ 4 + length (sni_extension h)
unfolding ech_then_decoy_sni u16_bytes
length-ech_then_decoy_sni h = omega arith

abbrev named : Bytes → List (ℕ × Bytes)
named h = (ext_server_name, server_name_list h) ∷ []

abbrev hidden : Bytes → List (ℕ × Bytes)
hidden h = (ext_encrypted_client_hello, []) ∷ named h

length-server_name_list : (h : Bytes) → length (server_name_list h) ≡ 5 + length h
unfolding server_name_list u16_bytes
length-server_name_list h = omega arith

module _ (h : Bytes) (v : IsHostName h) (e : strip_dot h ≡ h) where
  scan-named : outcome (scan_list (initial_scan (u16_chunks suites)) (named h)) ≡ cleartext h
  unfolding scan_list scan_one handle_extension handle_server_name note_type publish_host classify
  scan-named = rw (parse_server_name_extension-server_name_list h v e) refl

  scan-hidden : outcome (scan_list (initial_scan (u16_chunks suites)) (hidden h)) ≡ encrypted
  unfolding scan_list scan_one handle_extension handle_server_name note_type publish_host classify
  scan-hidden = rw (parse_server_name_extension-server_name_list h v e) refl

  named-FitU16 : FitU16 (named h)
  named-FitU16 = (omega arith, omega (arith, length-server_name_list h, v.short), tt)

  -- For a valid host name that ends in no dot, the outcome of the demo's hello for that name is the
  -- name in clear, byte by byte.
  pub extract_sni-sni_extension : extract_sni (client_hello (sni_extension h)) ≡ cleartext h
  extract_sni-sni_extension =
      let size : length (encode_extensions (named h)) < 16000 =
        omega (arith, length-sni_extension h, ap length (sni_extension-encode h), v.short) in
      rw (sni_extension-encode h)
        (extract_sni-client_hello (named h) named-FitU16 size ∙ scan-named)

  -- For a valid host name that ends in no dot, the outcome of the demo's hello with an
  -- `encrypted_client_hello` in front of that name is `encrypted`: the decoy is not reported.
  pub extract_sni-ech_then_decoy_sni : extract_sni (client_hello (ech_then_decoy_sni h)) ≡ encrypted
  extract_sni-ech_then_decoy_sni =
      let same = ech_then_decoy_sni-encode h in
      let size : length (encode_extensions (hidden h)) < 16000 =
        omega
          (arith, length-sni_extension h, ap length same, length-ech_then_decoy_sni h, v.short) in
      rw same (
        extract_sni-client_hello (hidden h) (omega arith, omega arith, named-FitU16) size
        ∙ scan-hidden)
