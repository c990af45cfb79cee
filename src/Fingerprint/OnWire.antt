-- ===== src/Fingerprint/OnWire.antt =====
-- The fingerprint of a hello that came over the wire.
pub mod Types
pub mod Fields
pub mod Reordered
pub mod Shuffled
use aegiuw.Prelude.{
  Bytes, length, bind-eq-some, map_option-eq-some, unless-eq-some, ℕ, ◌≤◌, ◌≡◌, refl, sym, ap, ◌∙◌,
  ◌||◌, some, some-injective, List, [], ◌∷◌, ◌++◌, map, append-nil, append_assoc, arith,
}
use aegiuw.Sni.Types.{
  ServerNameOutcome, host, skip, malformed, ClientHelloMetadata, tls_legacy_version,
  max_handshake_bytes,
}
use aegiuw.Sni.ServerName.{parse_server_name_extension}
use aegiuw.Sni.Reassembly.Fragments.{records_of, joined, FitRecords}
use aegiuw.Sni.Handshake.{
  Scan, note_type, handle_server_name, handle_extension, initial_scan, u16_chunks, publish_host,
  contains,
}
use aegiuw.Sni.Handshake.Frame.{handle_extension-Frame}
use aegiuw.Sni.Handshake.Scanning.{scan_one, scan_list, encode_extensions, FitU16}
use aegiuw.Sni.Handshake.Header.{IsHello, IsMessage}
use aegiuw.Sni.Extract.{parse_client_hello_full}
use aegiuw.Sni.Extract.Records.{parse_client_hello_full-records_of}
use aegiuw.Fingerprint.{without_grease}
use aegiuw.Fingerprint.OnWire.Types.{types_of}
use aegiuw.Fingerprint.Join.{split_on, read_numbers}
use aegiuw.Fingerprint.Ja3.{ja3_raw}
use aegiuw.Fingerprint.Ja3.Fields.{kept_groups, kept_formats, ja3_raw-fields}

handle_server_name-cipher_suites :
    (o : ServerNameOutcome) (s t : Scan)
    → handle_server_name o s ≡ some t
    → t.meta.cipher_suites ≡ s.meta.cipher_suites
unfolding handle_server_name
handle_server_name-cipher_suites (host h) s t e = ground arith
handle_server_name-cipher_suites skip s t e = ground arith
handle_server_name-cipher_suites malformed s t e = absurd (cc)

handle_extension-cipher_suites :
    (ext_type : ℕ) (ext : Bytes) (s t : Scan)
    → handle_extension ext_type ext s ≡ some t
    → t.meta.cipher_suites ≡ s.meta.cipher_suites
unfolding handle_extension
handle_extension-cipher_suites ext_type ext s t e =
    ground (arith, handle_server_name-cipher_suites (parse_server_name_extension ext) s t)

pub note_type-wire :
    (t : ℕ) (s : Scan)
    → ((note_type t s).meta.extension_order ≡ s.meta.extension_order ++ t ∷ [])
      × ((note_type t s).meta.cipher_suites ≡ s.meta.cipher_suites)
unfolding note_type
note_type-wire t s = ground arith

-- One extension more: its type goes behind the others.
scan_one-wire :
    (s u : Scan) (t : ℕ) (x : Bytes)
    → scan_one s (t, x) ≡ some u
    → (u.meta.extension_order ≡ s.meta.extension_order ++ t ∷ [])
      × (u.meta.cipher_suites ≡ s.meta.cipher_suites)
unfolding scan_one
scan_one-wire s u t x e =
    let (_, h) = unless-eq-some (s.psk_seen || contains t s.meta.extension_order) _ e in
    let (order, suites) = note_type-wire t s in
    (
      (handle_extension-Frame t x (note_type t s) u h).order ∙ order,
      handle_extension-cipher_suites t x (note_type t s) u h ∙ suites,
    )

pub scan_list-wire :
    (es : List (ℕ × Bytes)) (s u : Scan)
    → scan_list s es ≡ some u
    → (u.meta.extension_order ≡ s.meta.extension_order ++ types_of es)
      × (u.meta.cipher_suites ≡ s.meta.cipher_suites)
unfolding scan_list
scan_list-wire [] s u e =
    let same = some-injective _ _ e in
    (
      ap (λ v. v.meta.extension_order) (sym same) ∙ sym (append-nil s.meta.extension_order),
      ap (λ v. v.meta.cipher_suites) (sym same),
    )
scan_list-wire ((t, x) ∷ es) s u e =
    let (v, p, q) = bind-eq-some (scan_one s (t, x)) _ e in
    let (o1, c1) = scan_one-wire s v t x p in
    let (o2, c2) = scan_list-wire es v u q in
    (
      o2
          ∙ ap (λ l. l ++ types_of es) o1
          ∙ append_assoc s.meta.extension_order (t ∷ []) (types_of es),
      c2 ∙ c1,
    )

pub publish_host-wire :
    (s : Scan)
    → ((publish_host s).extension_order ≡ s.meta.extension_order)
      × ((publish_host s).cipher_suites ≡ s.meta.cipher_suites)
unfolding publish_host
publish_host-wire s = ground arith

-- The JA3 text of a hello that was read from records, split at its commas and hyphens, gives back the
-- cipher suites and the types of the extensions as they stood on the wire, without GREASE, between the
-- version and the groups and point formats; whatever the random is and whatever stands behind the
-- extensions, however the hello was cut into records, and whatever follows them.
pub ja3_raw-records_of :
    (es : List (ℕ × Bytes)) (sid cs comp : Bytes) (fs : List Bytes) (rest : Bytes)
    (m : ClientHelloMetadata)
    → FitU16 es
    → IsHello (encode_extensions es) sid cs comp
    → IsMessage (encode_extensions es) sid cs comp (joined fs)
    → length (joined fs) ≤ max_handshake_bytes
    → FitRecords fs
    → parse_client_hello_full (records_of fs ++ rest) ≡ some m
    → map (read_numbers b'-') (split_on b',' (ja3_raw m))
      ≡ (tls_legacy_version ∷ [])
        ∷ without_grease (u16_chunks cs)
        ∷ without_grease (types_of es)
        ∷ kept_groups m
        ∷ kept_formats m
        ∷ []
ja3_raw-records_of es sid cs comp fs rest m fit v e small fits p =
    let parsed = parse_client_hello_full-records_of es sid cs comp fs rest fit v e small fits in
    let (s, scanned, published) = map_option-eq-some publish_host _ (sym parsed ∙ p) in
    let (order, suites) = scan_list-wire es (initial_scan (u16_chunks cs)) s scanned in
    let (order', suites') = publish_host-wire s in
    let types : m.extension_order ≡ types_of es =
      ap (λ n. n.extension_order) (sym published) ∙ order' ∙ order in
    let ciphers : m.cipher_suites ≡ u16_chunks cs =
      ap (λ n. n.cipher_suites) (sym published) ∙ suites' ∙ suites in
    ja3_raw-fields m ∙ rw (types, ciphers) refl
