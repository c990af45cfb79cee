-- ===== src/Fingerprint/OnWire/Fields.antt =====
-- What one extension does to the fields of a scan that JA4 reads.
use aegiuw.Prelude.{◌==◌, if◌then◌else◌, Bytes, unless-eq-some, ℕ, ◌≡◌, ◌||◌, Option, some, arith}
use aegiuw.Sni.Types.{
  ServerNameOutcome, host, ext_alpn, ext_supported_versions, ext_signature_algorithms,
  ext_server_name,
}
use aegiuw.Sni.ServerName.{parse_server_name_extension}
use aegiuw.Sni.Lists.{
  parse_alpn_extension, parse_supported_versions_extension, parse_u16_prefixed_u16_list,
}
use aegiuw.Sni.Handshake.{Scan, note_type, contains, handle_server_name, handle_extension}
use aegiuw.Sni.Handshake.Scanning.{scan_one}
use aegiuw.Fingerprint.OnWire.Reordered.{step}

-- The host that a server_name extension leaves, with the one before.
abbrev pub host_after : ServerNameOutcome → Option Bytes → Option Bytes
host_after (host h) o = some h
host_after _ o = o

module _ (ext_type : ℕ) (ext : Bytes) (s t : Scan) where
  handle_extension-versions :
      handle_extension ext_type ext s ≡ some t
      → t.meta.supported_versions ≡ (
          if ext_type == ext_supported_versions
          then parse_supported_versions_extension ext
          else s.meta.supported_versions)
  unfolding handle_extension handle_server_name
  handle_extension-versions e = ground arith

  handle_extension-alpn :
      handle_extension ext_type ext s ≡ some t
      → t.meta.alpn_protocols
        ≡ (if ext_type == ext_alpn then parse_alpn_extension ext else s.meta.alpn_protocols)
  unfolding handle_extension handle_server_name
  handle_extension-alpn e = ground arith

  handle_extension-algorithms :
      handle_extension ext_type ext s ≡ some t
      → t.meta.signature_algorithms ≡ (
          if ext_type == ext_signature_algorithms
          then parse_u16_prefixed_u16_list ext
          else s.meta.signature_algorithms)
  unfolding handle_extension handle_server_name
  handle_extension-algorithms e = ground arith

  handle_extension-host :
      handle_extension ext_type ext s ≡ some t
      → t.sni_host ≡ (
          if ext_type == ext_server_name
          then host_after (parse_server_name_extension ext) s.sni_host
          else s.sni_host)
  unfolding handle_extension handle_server_name
  handle_extension-host e = ground arith

note_type-fields :
    (ext_type : ℕ) (s : Scan)
    → ((note_type ext_type s).meta.supported_versions ≡ s.meta.supported_versions)
      × ((note_type ext_type s).meta.alpn_protocols ≡ s.meta.alpn_protocols)
      × ((note_type ext_type s).meta.signature_algorithms ≡ s.meta.signature_algorithms)
      × ((note_type ext_type s).sni_host ≡ s.sni_host)
unfolding note_type
note_type-fields ext_type s = ground arith

-- An extension that the scan takes is handled behind its note.
scan_one-handle_extension :
    (s t : Scan) (e : ℕ × Bytes)
    → scan_one s e ≡ some t
    → handle_extension e.0 e.1 (note_type e.0 s) ≡ some t
unfolding scan_one
scan_one-handle_extension s t e h =
    (unless-eq-some (s.psk_seen || contains e.0 s.meta.extension_order) _ h).1

module _ (s t : Scan) (e : ℕ × Bytes) (h : scan_one s e ≡ some t) where
  pub scan_one-versions :
      t.meta.supported_versions
      ≡ step ext_supported_versions
          (λ x _. parse_supported_versions_extension x)
          e
          s.meta.supported_versions
  scan_one-versions =
      rw (← (note_type-fields e.0 s).0)
        (handle_extension-versions e.0 e.1 (note_type e.0 s) t (scan_one-handle_extension s t e h))

  pub scan_one-alpn :
      t.meta.alpn_protocols ≡ step ext_alpn (λ x _. parse_alpn_extension x) e s.meta.alpn_protocols
  scan_one-alpn =
      rw (← (note_type-fields e.0 s).1)
        (handle_extension-alpn e.0 e.1 (note_type e.0 s) t (scan_one-handle_extension s t e h))

  pub scan_one-algorithms :
      t.meta.signature_algorithms
      ≡ step ext_signature_algorithms
          (λ x _. parse_u16_prefixed_u16_list x)
          e
          s.meta.signature_algorithms
  scan_one-algorithms =
      rw (← (note_type-fields e.0 s).2) (
        handle_extension-algorithms e.0 e.1 (note_type e.0 s) t (scan_one-handle_extension s t e h))

  pub scan_one-host :
      t.sni_host
      ≡ step ext_server_name (λ x o. host_after (parse_server_name_extension x) o) e s.sni_host
  scan_one-host =
      rw (← (note_type-fields e.0 s).3)
        (handle_extension-host e.0 e.1 (note_type e.0 s) t (scan_one-handle_extension s t e h))
