-- ===== src/Fingerprint/OnWire/Shuffled.antt =====
-- JA4 of a hello whose cipher suites and extensions come in another order on the wire.
use mathlib.Core.List.{Permᴰ, Perm}
use mathlib.Core.Logic.{∥∥₁_elim}
use aegiuw.Prelude.{
  if◌then◌else◌, Bytes, is_some, bind-eq-some, map_option-eq-some, unless-eq-some, ℕ, ◌≡◌, refl,
  sym, ap, ◌∙◌, subst, false, not, ◌||◌, some, some-injective, List, [], ◌∷◌, arith,
}
use aegiuw.Sni.Handshake.Header.{IsHello, IsMessage}
use aegiuw.Sni.Extract.Records.{parse_handshake_message_full-encode}
use aegiuw.Sni.Types.{ClientHelloMetadata, ext_encrypted_client_hello}
use aegiuw.Sni.Handshake.{
  Scan, contains, initial_scan, u16_chunks, publish_host, parse_handshake_message_full,
}
use aegiuw.Sni.Handshake.Invariant.{ScanInv, scan_one-ScanInv, initial-ScanInv, Distinct}
use aegiuw.Sni.Handshake.Scanning.{scan_one, scan_list, encode_extensions, FitU16}
use aegiuw.Fingerprint.Ja4.{ja4, ja4_a, ja4_b, ja4_c, ja4_tls_version_str, ja4_alpn_chars}
use aegiuw.Fingerprint.Ja4.Order.{ja4_count-Permᴰ, sort-ciphers, sort-extensions, Ja4-set}
use aegiuw.Fingerprint.OnWire.Reordered.{contains-Permᴰ, types_of-Permᴰ, scan_list-reordered}
use aegiuw.Fingerprint.OnWire.Fields.{
  scan_one-versions, scan_one-alpn, scan_one-algorithms, scan_one-host,
}
use aegiuw.Fingerprint.OnWire.{scan_list-wire, publish_host-wire}

-- What JA4 reads of two hellos agrees.
record Agree (m n : ClientHelloMetadata) : Type 0 where
  versions : m.supported_versions ≡ n.supported_versions
  alpn : m.alpn_protocols ≡ n.alpn_protocols
  algorithms : m.signature_algorithms ≡ n.signature_algorithms
  named : is_some m.host ≡ is_some n.host
  suites : Permᴰ m.cipher_suites n.cipher_suites
  order : Permᴰ m.extension_order n.extension_order

ja4-Agree :
    (sha256 : Bytes → Bytes) (m n : ClientHelloMetadata) → Agree m n → ja4 sha256 m ≡ ja4 sha256 n
unfolding ja4 ja4_a ja4_b ja4_c ja4_tls_version_str ja4_alpn_chars
ja4-Agree sha256 m n a =
    rw
      (
        a.versions,
        a.alpn,
        a.algorithms,
        a.named,
        ja4_count-Permᴰ a.suites,
        ja4_count-Permᴰ a.order,
        sort-ciphers a.suites,
        sort-extensions a.order,
      )
      refl

scan_list-ScanInv :
    (es : List (ℕ × Bytes)) (s u : Scan) → ScanInv s → scan_list s es ≡ some u → ScanInv u
unfolding scan_list scan_one
scan_list-ScanInv [] s u v e = subst ScanInv (some-injective _ _ e) v
scan_list-ScanInv ((t, x) ∷ es) s u v e =
    let (w, p, q) = bind-eq-some (scan_one s (t, x)) _ e in
    let (fresh, h) = unless-eq-some (s.psk_seen || contains t s.meta.extension_order) _ p in
    let no_psk : s.psk_seen ≡ false = ground arith in
    let not_there : contains t s.meta.extension_order ≡ false = ground arith in
    scan_list-ScanInv es w u (scan_one-ScanInv t x s w v no_psk not_there h) q

publish_host-fields :
    (s : Scan)
    → ((publish_host s).supported_versions ≡ s.meta.supported_versions)
      × ((publish_host s).alpn_protocols ≡ s.meta.alpn_protocols)
      × ((publish_host s).signature_algorithms ≡ s.meta.signature_algorithms)
      × ((publish_host s).host ≡ (if not s.meta.ech_present then s.sni_host else s.meta.host))
unfolding publish_host
publish_host-fields s = ground arith

-- Scans of reordered hellos agree.
scans-Agree :
    (cs cs' : List ℕ) (es es' : List (ℕ × Bytes)) (s s' : Scan)
    → Permᴰ cs cs'
    → Permᴰ es es'
    → scan_list (initial_scan cs) es ≡ some s
    → scan_list (initial_scan cs') es' ≡ some s'
    → Agree (publish_host s) (publish_host s')
scans-Agree cs cs' es es' s s' p q e e' =
    let v = scan_list-ScanInv es (initial_scan cs) s (initial-ScanInv cs) e in
    let v' = scan_list-ScanInv es' (initial_scan cs') s' (initial-ScanInv cs') e' in
    let (order, suites) = scan_list-wire es (initial_scan cs) s e in
    let (order', suites') = scan_list-wire es' (initial_scan cs') s' e' in
    let distinct = subst Distinct order v.distinct in
    let (f1, f2, f3, f4) = publish_host-fields s in
    let (g1, g2, g3, g4) = publish_host-fields s' in
    let (w, c) = publish_host-wire s in
    let (w', c') = publish_host-wire s' in
    let types : Permᴰ s.meta.extension_order s'.meta.extension_order =
      rw (order, order') (types_of-Permᴰ q) in
    let hidden : s.meta.ech_present ≡ s'.meta.ech_present =
      v.ech ∙ contains-Permᴰ ext_encrypted_client_hello types ∙ sym v'.ech in
    let found : s.sni_host ≡ s'.sni_host =
      scan_list-reordered _ _ (λ u. u.sni_host) scan_one-host es es' (initial_scan cs)
        (initial_scan cs') s s' refl q distinct e e' in
    let versions =
      scan_list-reordered _ _ (λ u. u.meta.supported_versions) scan_one-versions es es'
        (initial_scan cs) (initial_scan cs') s s' refl q distinct e e' in
    let alpn =
      scan_list-reordered _ _ (λ u. u.meta.alpn_protocols) scan_one-alpn es es' (initial_scan cs)
        (initial_scan cs') s s' refl q distinct e e' in
    let algorithms =
      scan_list-reordered _ _ (λ u. u.meta.signature_algorithms) scan_one-algorithms es es'
        (initial_scan cs) (initial_scan cs') s s' refl q distinct e e' in
    record {
      versions = f1 ∙ versions ∙ sym g1;
      alpn = f2 ∙ alpn ∙ sym g2;
      algorithms = f3 ∙ algorithms ∙ sym g3;
      named = rw (f4, g4, hidden, found, v.unpublished, v'.unpublished) refl;
      suites = rw (c, c', suites, suites') p;
      order = rw (w, w') types;
    }

scans-ja4 :
    (sha256 : Bytes → Bytes) (cs cs' : List ℕ) (es es' : List (ℕ × Bytes)) (s s' : Scan)
    → Perm cs cs'
    → Perm es es'
    → scan_list (initial_scan cs) es ≡ some s
    → scan_list (initial_scan cs') es' ≡ some s'
    → ja4 sha256 (publish_host s) ≡ ja4 sha256 (publish_host s')
scans-ja4 sha256 cs cs' es es' s s' p q e e' = ∥∥₁_elim p (Ja4-set _ _) λ d.
    ∥∥₁_elim q (Ja4-set _ _) λ d'. ja4-Agree sha256 _ _ (scans-Agree cs cs' es es' s s' d d' e e')

-- Two messages with the same cipher suites and the same extensions, each in any order, that are both
-- accepted have the same JA4 fingerprint, whatever their randoms, session ids and compression methods
-- are, whatever stands behind their extensions, and whatever the digest is.
pub ja4_shuffled :
    (sha256 : Bytes → Bytes) (es es' : List (ℕ × Bytes)) (sid sid' cs cs' comp comp' : Bytes)
    (msg msg' : Bytes) (m m' : ClientHelloMetadata)
    → FitU16 es
    → FitU16 es'
    → IsHello (encode_extensions es) sid cs comp
    → IsHello (encode_extensions es') sid' cs' comp'
    → IsMessage (encode_extensions es) sid cs comp msg
    → IsMessage (encode_extensions es') sid' cs' comp' msg'
    → Perm (u16_chunks cs) (u16_chunks cs')
    → Perm es es'
    → parse_handshake_message_full msg ≡ some m
    → parse_handshake_message_full msg' ≡ some m'
    → ja4 sha256 m ≡ ja4 sha256 m'
ja4_shuffled sha256 es es' sid sid' cs cs' comp comp' msg msg' m m' fit fit' v v' w w' p q e e' =
    let parsed = parse_handshake_message_full-encode es sid cs comp msg fit v w in
    let parsed' = parse_handshake_message_full-encode es' sid' cs' comp' msg' fit' v' w' in
    let (s, scanned, k) = map_option-eq-some publish_host _ (sym parsed ∙ e) in
    let (s', scanned', k') = map_option-eq-some publish_host _ (sym parsed' ∙ e') in
    ap (ja4 sha256) (sym k)
    ∙ scans-ja4 sha256 (u16_chunks cs) (u16_chunks cs') es es' s s' p q scanned scanned'
    ∙ ap (ja4 sha256) k'
