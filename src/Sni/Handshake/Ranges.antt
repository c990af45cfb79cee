-- ===== src/Sni/Handshake/Ranges.antt =====
-- The fields of the metadata are values of the types that the source gives them.
use aegiuw.Prelude.{
  leb, ◌==◌, Bool-cases, Bytes, length, is_empty, all, AllOk, bind-eq-some, map_option-eq-some, ℕ,
  suc, ◌%◌, ◌≤◌, ◌<◌, ◌≡◌, sym, subst, inl, inr, true, not, ◌&&◌, Option, none, some,
  some-injective, List, [], ◌∷◌, arith,
}
use aegiuw.Cursor.{
  new, read_u8, read_u16, read_u24, read_slice, read_u8_prefixed, read_u16_prefixed,
}
use aegiuw.Cursor.Octets.{
  AreOctets, AllOk-append, Reads, >>=-Reads, guard-Reads, pure-Reads, lift-Reads,
  while_remaining-Reads, read_u8-Reads, read_u16-Reads, read_u24-Reads, read_slice-Reads,
  read_u8_prefixed-Reads, read_u16_prefixed-Reads,
}
use aegiuw.Sni.Types.{
  ClientHelloMetadata, ServerNameOutcome, host, skip, malformed, handshake_type_client_hello,
  tls_legacy_version, ext_pre_shared_key, ext_server_name, ext_encrypted_client_hello, ext_alpn,
  ext_supported_versions, ext_early_data, ext_compress_certificate, ext_record_size_limit,
  ext_signature_algorithms, ext_supported_groups, ext_ec_point_formats, ext_key_share,
}
use aegiuw.Sni.ServerName.{is_ldh, parse_server_name_extension}
use aegiuw.Sni.Lists.Ranges.{
  AreWords, Yields, if-Yields, some-Yields, arm-Yields, parse_alpn_extension-Yields,
  parse_ec_point_formats_extension-Yields, parse_u16_prefixed_u16_list-Yields,
  parse_supported_versions_extension-Yields, parse_record_size_limit_extension-Yields,
  parse_key_share_extension-Yields,
}
use aegiuw.Sni.Handshake.{
  Scan, contains, u16_chunks, note_type, handle_server_name, handle_extension, scan_extension,
  scan_extensions, initial_scan, publish_host, read_client_hello, parse_handshake_message_full,
}
use aegiuw.Sni.Handshake.Frame.{HostOk}
use aegiuw.Sni.Handshake.Invariant.{parse_handshake_message_full-IsClean}

abbrev pub OnSome {ℓ} : {A : Type ℓ} → (A → Type 0) → Option A → Type 0
OnSome P none = Unit
OnSome P (some a) = P a

-- A `&str` or `&[u8]` is of `u8`, a list of numbers of `u16`, and a record size limit is one that RFC
-- 8449 allows.
pub record HasTypes (m : ClientHelloMetadata) : Type 0 where
  pub host : OnSome AreOctets m.host
  pub alpn : OnSome (AllOk AreOctets) m.alpn_protocols
  pub versions : OnSome AreWords m.supported_versions
  pub shares : OnSome AreWords m.key_share_groups
  pub limit : OnSome (λ n. (64 ≤ n) × (n ≤ 16385)) m.record_size_limit
  pub algorithms : OnSome AreWords m.signature_algorithms
  pub groups : OnSome AreWords m.supported_groups
  pub formats : OnSome AreOctets m.ec_point_formats
  pub order : AreWords m.extension_order
  pub suites : AreWords m.cipher_suites

u16_chunks-AreWords : (s : Bytes) → AreOctets s → AreWords (u16_chunks s)
unfolding u16_chunks
u16_chunks-AreWords [] o = tt
u16_chunks-AreWords (a ∷ []) o = tt
u16_chunks-AreWords (a ∷ b ∷ s) o = (omega arith, u16_chunks-AreWords s o.1.1)

read_client_hello-Reads : Reads (λ v. AreWords v.0 × AreOctets v.1) read_client_hello
unfolding read_client_hello
read_client_hello-Reads =
    let Q : List ℕ × Bytes → Type 0 = λ v. AreWords v.0 × AreOctets v.1 in
    >>=-Reads _ Q read_u8 _ read_u8-Reads λ t _.
      guard-Reads Q (t == handshake_type_client_hello) _ λ _.
        >>=-Reads _ Q read_u24 _ read_u24-Reads λ n _.
          >>=-Reads _ Q read_u16 _ read_u16-Reads λ v _.
            guard-Reads Q (v == tls_legacy_version) _ λ _.
              >>=-Reads _ Q (read_slice 32) _ (read_slice-Reads 32) λ random _.
                >>=-Reads _ Q read_u8_prefixed _ read_u8_prefixed-Reads λ sid _.
                  guard-Reads Q (leb (length sid) 32) _ λ _.
                    >>=-Reads _ Q read_u16_prefixed _ read_u16_prefixed-Reads λ suites so.
                      guard-Reads Q (not (is_empty suites) && length suites % 2 == 0) _ λ _.
                        >>=-Reads _ Q read_u8_prefixed _ read_u8_prefixed-Reads λ comp _.
                          guard-Reads Q (contains 0 comp) _ λ _.
                            >>=-Reads _ Q read_u16_prefixed _ read_u16_prefixed-Reads λ exts eo.
                              pure-Reads Q (u16_chunks suites, exts)
                                (u16_chunks-AreWords suites so.0, eo.0)

abbrev ScanTypes : Scan → Type 0
ScanTypes s = HasTypes s.meta

note_type-ScanTypes : (t : ℕ) (s : Scan) → t < 65536 → ScanTypes s → ScanTypes (note_type t s)
unfolding note_type
note_type-ScanTypes t s lt h =
    let order = AllOk-append (λ x. x < 65536) s.meta.extension_order (t ∷ []) h.order (lt, tt) in
    elim (Bool-cases (t == ext_pre_shared_key)) [
      | inl y ↦ rw y (ground arith)
      | inr n ↦ rw n (ground arith)
    ]

handle_server_name-ScanTypes :
    (o : ServerNameOutcome) (s : Scan) → ScanTypes s → Yields ScanTypes (handle_server_name o s)
unfolding handle_server_name
handle_server_name-ScanTypes (host x) s h t e = subst ScanTypes (some-injective _ _ e) h
handle_server_name-ScanTypes skip s h t e = subst ScanTypes (some-injective _ _ e) h
handle_server_name-ScanTypes malformed s h t e = absurd (cc)

handle_extension-ScanTypes :
    (t : ℕ) (ext : Bytes) (s : Scan)
    → AreOctets ext
    → ScanTypes s
    → Yields ScanTypes (handle_extension t ext s)
unfolding handle_extension
handle_extension-ScanTypes t ext s o h =
    let P : Scan → Type 0 = ScanTypes in
    let words = parse_u16_prefixed_u16_list-Yields ext o in
    if-Yields P (t == ext_encrypted_client_hello) _ _ (some-Yields P _ (ground arith)) (
      if-Yields P (t == ext_server_name) _ _
        (handle_server_name-ScanTypes (parse_server_name_extension ext) s h)
        (arm-Yields P (AllOk AreOctets) (t == ext_alpn) _ _ _ (parse_alpn_extension-Yields ext o)
          (λ v k. ground arith)
          (arm-Yields P AreWords (t == ext_supported_versions) _ _ _
            (parse_supported_versions_extension-Yields ext o) (λ v k. ground arith)
            (arm-Yields P AreWords (t == ext_key_share) _ _ _
              (parse_key_share_extension-Yields ext o) (λ v k. ground arith)
              (if-Yields P (t == ext_early_data) _ _ (some-Yields P _ (ground arith)) (
                if-Yields P (t == ext_compress_certificate) _ _ (some-Yields P _ (ground arith)) (
                  arm-Yields P (λ n. (64 ≤ n) × (n ≤ 16385)) (t == ext_record_size_limit) _ _ _
                    (parse_record_size_limit_extension-Yields ext) (λ v k. ground arith)
                    (arm-Yields P AreWords (t == ext_signature_algorithms) _ _ _ words
                      (λ v k. ground arith)
                      (arm-Yields P AreWords (t == ext_supported_groups) _ _ _ words
                        (λ v k. ground arith)
                        (arm-Yields P AreOctets (t == ext_ec_point_formats) _ _ _
                          (parse_ec_point_formats_extension-Yields ext o) (λ v k. ground arith)
                          (some-Yields P s h)))))))))))

initial_scan-ScanTypes : (cs : List ℕ) → AreWords cs → ScanTypes (initial_scan cs)
initial_scan-ScanTypes cs h = ground arith

scan_extension-Reads : (s : Scan) → ScanTypes s → Reads ScanTypes (scan_extension s)
unfolding scan_extension
scan_extension-Reads s h =
    let P : Scan → Type 0 = ScanTypes in
    guard-Reads P (not s.psk_seen) _ λ _. >>=-Reads _ P read_u16 _ read_u16-Reads λ t lt.
      >>=-Reads _ P read_u16_prefixed _ read_u16_prefixed-Reads λ ext o.
        guard-Reads P (not (contains t s.meta.extension_order)) _ λ _.
          lift-Reads P (handle_extension t ext (note_type t s))
            (handle_extension-ScanTypes t ext (note_type t s) o.0 (note_type-ScanTypes t s lt h))

scan_extensions-ScanTypes :
    (exts : Bytes) (s : Scan)
    → AreOctets exts
    → ScanTypes s
    → Yields ScanTypes (scan_extensions exts s)
unfolding scan_extensions new
scan_extensions-ScanTypes exts s o h t e =
    let ((u, c), p, q) = map_option-eq-some _ _ e in
    subst ScanTypes q
      (while_remaining-Reads ScanTypes 4 scan_extension scan_extension-Reads (suc (length exts)) s h
        (new exts) u c o p).1

ldh-AreOctets : (s : Bytes) → all is_ldh s ≡ true → AreOctets s
ldh-AreOctets [] e = tt
ldh-AreOctets (b ∷ s) e = (ground arith, ldh-AreOctets s (ground arith))

host-AreOctets : (x : Option Bytes) → HostOk x → OnSome AreOctets x
host-AreOctets none k = tt
host-AreOctets (some h) k = ldh-AreOctets h k.ldh

publish_host-HasTypes :
    (s : Scan) → ScanTypes s → HostOk (publish_host s).host → HasTypes (publish_host s)
unfolding publish_host
publish_host-HasTypes s h k = elim (Bool-cases s.meta.ech_present) [
  | inl y ↦ rw y (ground arith)
  | inr n ↦ let x = host-AreOctets s.sni_host (rw n at k) in rw n (ground arith)
]

pub parse_handshake_message_full-HasTypes :
    (handshake : Bytes) {m : ClientHelloMetadata}
    → AreOctets handshake
    → parse_handshake_message_full handshake ≡ some m
    → HasTypes m
unfolding parse_handshake_message_full new
parse_handshake_message_full-HasTypes handshake {m} o e =
    let (((cs, exts), c), p, q) = bind-eq-some (read_client_hello (new handshake)) _ e in
    let (s, scanned, published) = map_option-eq-some publish_host _ q in
    let (words, octets) = (read_client_hello-Reads (new handshake) (cs, exts) c o p).1 in
    let clean = parse_handshake_message_full-IsClean handshake e in
    let typed =
      scan_extensions-ScanTypes exts (initial_scan cs) octets (initial_scan-ScanTypes cs words) s
        scanned in
    subst HasTypes published
      (publish_host-HasTypes s typed (subst (λ n. HostOk n.host) (sym published) clean.host_ok))
