-- ===== src/Tests/Fingerprints.antt =====
-- The claims about the fingerprints, the classification of the client and the tools.
use mathlib.Core.List.{Permᴰ}
use aegiuw.Prelude.{
  Bytes, length, replicate, map_option, ℕ, ◌≤◌, ◌<◌, ◌≡◌, refl, sym, ap, ◌∙◌, ◌↔◌, inl, inr, true,
  false, none, some, List, [], ◌∷◌, ◌++◌, arith,
}
use aegiuw.Prelude.Text.{codes}
use aegiuw.Sni.Types.{ClientHelloMetadata, cleartext, malformed}
use aegiuw.Sni.Std.{strip_dot}
use aegiuw.Sni.Wire.{u16_bytes, build_extension}
use aegiuw.Sni.Handshake.Header.{IsHello, IsMessage, hello_message}
use aegiuw.Sni.Handshake.Scanning.{encode_extensions, FitU16, scan_one, scan_list}
use aegiuw.Sni.Extract.Records.{parse_handshake_message_full-encode}
use aegiuw.Sni.Handshake.{Scan, initial_scan, u16_chunks, note_type, handle_extension, publish_host}
use aegiuw.Sni.Extract.{eq_bytes, extract_sni, parse_client_hello_full}
use aegiuw.Sni.Extract.Stream.{extract_sni-append}
use aegiuw.Sni.Metadata.Alpn.{http3, offers}
use aegiuw.Sni.Metadata.Groups.{has_post_quantum_key_share}
use aegiuw.Sni.Metadata.Versions.{highest_supported_tls_version}
use aegiuw.Fingerprint.{is_grease_codepoint, without_grease}
use aegiuw.Fingerprint.Ja3.{ja3}
use aegiuw.Fingerprint.Ja4.{ja4, ja4_tls_version_str, greatest, version_str, ja4_a}
use aegiuw.Fingerprint.OnWire.Shuffled.{ja4_shuffled}
use aegiuw.Fingerprint.Ja4.Width.{ja4-lengths}
use aegiuw.Fingerprint.Ja4.Version.{version_code, ja4_tls_version_str_lem}
use aegiuw.Fingerprint.Launch.{
  cli, find_known, known_client_from_ja4, likely_launch_source, browser_score, bucket, add_if, plus,
  minus, at_least, is_negative,
}
use aegiuw.Fingerprint.Launch.Score.{
  likeness, SignalsToo, likely_launch_source-cli, likely_launch_source_mono, likely-miss,
}
use aegiuw.Fingerprint.Ungreased.{ungreased-fingerprints}
use aegiuw.Inspect.{ok, hex_digits, hex_nibble, push_byte, decode_pair, decode_pairs, decode_hex}
use aegiuw.Inspect.Report.{details_of, report_bytes, inspect, shown, inspect-shown}
use aegiuw.Daemon.RoundTrip.{extract_sni-sni_extension}
use aegiuw.Tests.{github, visit, github-IsHostName, protocols, null}

visit-cleartext : extract_sni visit ≡ cleartext github
visit-cleartext = extract_sni-sni_extension github github-IsHostName (unfold strip_dot in refl)

extract_sni-append_example : extract_sni (visit ++ 0x17 ∷ 0x03 ∷ []) ≡ extract_sni visit
extract_sni-append_example =
    extract_sni-append visit (0x17 ∷ 0x03 ∷ []) (λ e. cc (sym visit-cleartext ∙ e))

-- A digest for the tests, of 32 bytes.
abbrev digest : Bytes → Bytes
digest s = replicate 32 (length s)

-- A hello with GREASE in its lists.
abbrev greasy : ClientHelloMetadata
greasy = record ((initial_scan []).meta) {
  cipher_suites = 0x1a1a ∷ 0x1301 ∷ 0x1302 ∷ [];
  extension_order = 0x2a2a ∷ 0x0000 ∷ 0x0010 ∷ 0x002b ∷ [];
  supported_versions = some (0x7a7a ∷ 0x0304 ∷ 0x0303 ∷ []);
  key_share_groups = some (0x001d ∷ []);
  alpn_protocols = some protocols;
}

-- The same with other GREASE.
abbrev reseeded : ClientHelloMetadata
reseeded = record greasy {
  cipher_suites = 0x1301 ∷ 0x1302 ∷ 0xfafa ∷ [];
  extension_order = 0x0000 ∷ 0x3a3a ∷ 0x0010 ∷ 0x002b ∷ 0xcaca ∷ [];
  supported_versions = some (0x0304 ∷ 0x0303 ∷ []);
}

ungreased-fingerprints_example :
    (ja3 digest greasy ≡ ja3 digest reseeded)
    × (ja4 digest greasy ≡ ja4 digest reseeded)
    × (likely_launch_source digest greasy ≡ likely_launch_source digest reseeded)
ungreased-fingerprints_example =
    ungreased-fingerprints digest digest greasy reseeded
      (unfold without_grease is_grease_codepoint in refl)

abbrev exts : List (ℕ × Bytes)
exts = (0x0017, []) ∷ (0xff01, 0 ∷ []) ∷ []

abbrev exts_back : List (ℕ × Bytes)
exts_back = (0xff01, 0 ∷ []) ∷ (0x0017, []) ∷ []

abbrev two_suites : Bytes
two_suites = 0x13 ∷ 0x01 ∷ 0x13 ∷ 0x02 ∷ []

abbrev two_back : Bytes
two_back = 0x13 ∷ 0x02 ∷ 0x13 ∷ 0x01 ∷ []

exts-IsHello : IsHello (encode_extensions exts) [] two_suites null
unfolding encode_extensions build_extension u16_bytes
exts-IsHello = record {
  session_short = omega arith;
  suites_ne_nil = refl;
  suites_even = refl;
  suites_short = omega arith;
  compression_short = omega arith;
  compression_null = refl;
  exts_short = omega arith;
}

exts_back-IsHello : IsHello (encode_extensions exts_back) [] two_back null
unfolding encode_extensions build_extension u16_bytes
exts_back-IsHello = record {
  session_short = omega arith;
  suites_ne_nil = refl;
  suites_even = refl;
  suites_short = omega arith;
  compression_short = omega arith;
  compression_null = refl;
  exts_short = omega arith;
}

exts-FitU16 : FitU16 exts
exts-FitU16 = (omega arith, omega arith, (omega arith, omega arith, tt))

exts_back-FitU16 : FitU16 exts_back
exts_back-FitU16 = (omega arith, omega arith, (omega arith, omega arith, tt))

-- The two messages, with other randoms and other bytes behind.
abbrev first : Bytes
first = hello_message (replicate 32 0x01) (encode_extensions exts) [] two_suites null []

abbrev second : Bytes
second =
    hello_message (replicate 32 0x02) (encode_extensions exts_back) [] two_back null (0x07 ∷ [])

first-IsMessage : IsMessage (encode_extensions exts) [] two_suites null first
first-IsMessage = record {
  random = replicate 32 0x01;
  random_size = refl;
  behind = [];
  written = refl;
}

second-IsMessage : IsMessage (encode_extensions exts_back) [] two_back null second
second-IsMessage = record {
  random = replicate 32 0x02;
  random_size = refl;
  behind = 0x07 ∷ [];
  written = refl;
}

scanned : (s : Scan) × (scan_list (initial_scan (u16_chunks two_suites)) exts ≡ some s)
unfolding scan_list scan_one handle_extension note_type
scanned = (_, refl)

scanned_back : (s : Scan) × (scan_list (initial_scan (u16_chunks two_back)) exts_back ≡ some s)
unfolding scan_list scan_one handle_extension note_type
scanned_back = (_, refl)

ja4_shuffled_example :
    ja4 digest (publish_host scanned.0) ≡ ja4 digest (publish_host scanned_back.0)
ja4_shuffled_example =
    ja4_shuffled digest exts exts_back [] [] two_suites two_back null null first second
      (publish_host scanned.0) (publish_host scanned_back.0) exts-FitU16 exts_back-FitU16
      exts-IsHello exts_back-IsHello first-IsMessage second-IsMessage
      (∣ (unfold u16_chunks in Permᴰ.swap refl refl) ∣₁) (∣ Permᴰ.swap refl refl ∣₁)
      (parse_handshake_message_full-encode exts [] two_suites null first exts-FitU16 exts-IsHello
          first-IsMessage
        ∙ ap (map_option publish_host) scanned.1)
      (parse_handshake_message_full-encode exts_back [] two_back null second exts_back-FitU16
          exts_back-IsHello second-IsMessage
        ∙ ap (map_option publish_host) scanned_back.1)

ja4-lengths_example :
    (length (ja4 digest greasy).a ≡ 10)
    × (length (ja4 digest greasy).b ≡ 12)
    × (length (ja4 digest greasy).c ≡ 12)
    × (length (ja4 digest greasy).raw ≡ 36)
ja4-lengths_example = ja4-lengths digest greasy (λ s. refl)

greasy-grease : is_grease_codepoint 0x7a7a ≡ true
unfolding is_grease_codepoint
greasy-grease = refl

ja4_tls_version_str_lem_example :
    ja4_tls_version_str greasy ≡ version_code (highest_supported_tls_version greasy)
ja4_tls_version_str_lem_example =
    ja4_tls_version_str_lem greasy
      (inl greasy-grease, (inr (omega arith, omega arith), (inr (omega arith, omega arith), tt)))

-- A hello with nothing but a cipher suite.
abbrev bare : ClientHelloMetadata
bare = record ((initial_scan []).meta) { cipher_suites = 0x1301 ∷ [] }

bare-unknown : known_client_from_ja4 (ja4 digest bare).raw ≡ none
unfolding known_client_from_ja4 find_known eq_bytes ja4 ja4_a ja4_tls_version_str greatest
    version_str without_grease
bare-unknown = refl

bare-cli : likely_launch_source digest bare ≡ cli
unfolding browser_score bucket add_if plus minus at_least is_negative without_grease offers
    has_post_quantum_key_share
bare-cli = likely-miss digest bare bare-unknown ∙ refl

likely_launch_source-cli_example :
    (bare.ech_present ≡ false)
    × (has_post_quantum_key_share bare ≡ false)
    × (offers bare http3 ≡ false)
    × (length (without_grease bare.extension_order) ≤ 5)
likely_launch_source-cli_example = likely_launch_source-cli digest bare bare-cli

-- The same with compressed certificates.
abbrev compressing : ClientHelloMetadata
compressing = record bare { compress_certificate_present = true }

compressing-SignalsToo : SignalsToo bare compressing
unfolding has_post_quantum_key_share offers
compressing-SignalsToo = record {
  ech = λ e. e;
  post_quantum = λ e. e;
  compressed = λ e. refl;
  over_http3 = λ e. e;
  over_http2 = λ e. e;
  signed = λ e. e;
  extensions = omega arith;
}

likely_launch_source_mono_example :
    likeness (likely_launch_source digest bare) ≤ likeness (likely_launch_source digest compressing)
likely_launch_source_mono_example =
    likely_launch_source_mono digest bare compressing bare-unknown compressing-SignalsToo

truncated :
    inspect digest digest (codes "16 03")
    ≡ shown 2
        (extract_sni (0x16 ∷ 0x03 ∷ []))
        (map_option (details_of digest digest) (parse_client_hello_full (0x16 ∷ 0x03 ∷ [])))
unfolding inspect report_bytes decode_hex hex_digits hex_nibble push_byte decode_pair decode_pairs
truncated = refl

inspect-shown_example :
    (bytes : Bytes) × (decode_hex (codes "16 03") ≡ ok bytes)
    × (0 < 2)
    × (2 ≡ length bytes)
    × (extract_sni (0x16 ∷ 0x03 ∷ []) ≡ extract_sni bytes)
    × ((map_option (details_of digest digest) (parse_client_hello_full (0x16 ∷ 0x03 ∷ [])) ≡ none)
        ↔ (extract_sni (0x16 ∷ 0x03 ∷ []) ≡ malformed))
inspect-shown_example =
    inspect-shown digest digest (codes "16 03") 2 (extract_sni (0x16 ∷ 0x03 ∷ []))
      (map_option (details_of digest digest) (parse_client_hello_full (0x16 ∷ 0x03 ∷ []))) truncated
