-- ===== src/Fingerprint/Ungreased.antt =====
-- The fingerprints and the classification do not see the GREASE of a hello.
use aegiuw.Prelude.{
  Bool-cases, Bytes, Option-cases, map_option, is_some, unwrap_or, ℕ, ◌≡◌, refl, sym, ap, ◌∙◌, inl,
  inr, Bool, true, false, Option, none, some, List, [], ◌∷◌,
}
use aegiuw.Sni.Types.{ClientHelloMetadata}
use aegiuw.Sni.Metadata.Alpn.{offers}
use aegiuw.Sni.Metadata.Groups.{has_post_quantum_key_share}
use aegiuw.Fingerprint.{is_grease_codepoint, without_grease}
use aegiuw.Fingerprint.Grease.{without_grease_twice}
use aegiuw.Fingerprint.Ja3.{write_u16s, write_u16_list, write_groups, ja3_raw, ja3}
use aegiuw.Fingerprint.Ja4.{
  ja4_tls_version_str, ja4_alpn_chars, ja4_count, hashed_extensions, sigalgs_suffix, ja4_a, ja4_b,
  ja4_c, ja4,
}
use aegiuw.Fingerprint.Launch.{browser_score, likely_launch_source, bucket, known_client_from_ja4}
use aegiuw.Fingerprint.Launch.Score.{likely-hit, likely-miss}

-- The hello without the GREASE of five of its lists.
abbrev pub ungreased : ClientHelloMetadata → ClientHelloMetadata
ungreased m = record m {
  cipher_suites = without_grease m.cipher_suites;
  extension_order = without_grease m.extension_order;
  supported_groups = map_option without_grease m.supported_groups;
  supported_versions = map_option without_grease m.supported_versions;
  signature_algorithms = map_option without_grease m.signature_algorithms;
}

write_u16s-without_grease :
    (vs : List ℕ) (out : Bytes) (first : Bool)
    → write_u16s true out first (without_grease vs) ≡ write_u16s true out first vs
unfolding write_u16s without_grease
write_u16s-without_grease [] out first = refl
write_u16s-without_grease (v ∷ vs) out first = elim (Bool-cases (is_grease_codepoint v)) [
  | inl y ↦ rw y (write_u16s-without_grease vs out first)
  | inr n ↦ rw n (rw n (write_u16s-without_grease vs _ false))
]

write_u16_list-without_grease :
    (out : Bytes) (vs : List ℕ)
    → write_u16_list out (without_grease vs) true ≡ write_u16_list out vs true
unfolding write_u16_list
write_u16_list-without_grease out vs = write_u16s-without_grease vs out true

write_groups-without_grease :
    (out : Bytes) (gs : Option (List ℕ))
    → write_groups out (map_option without_grease gs) ≡ write_groups out gs
unfolding write_groups
write_groups-without_grease out none = refl
write_groups-without_grease out (some gs) = write_u16_list-without_grease out gs

ja3_raw-ungreased : (m : ClientHelloMetadata) → ja3_raw (ungreased m) ≡ ja3_raw m
unfolding ja3_raw
ja3_raw-ungreased m =
    rw
      (
        write_u16_list-without_grease _ m.cipher_suites,
        write_u16_list-without_grease _ m.extension_order,
        write_groups-without_grease _ m.supported_groups,
      )
      refl

ja3-ungreased : (md5 : Bytes → Bytes) (m : ClientHelloMetadata) → ja3 md5 (ungreased m) ≡ ja3 md5 m
unfolding ja3
ja3-ungreased md5 m = rw (ja3_raw-ungreased m) refl

ja4_count-without_grease : (vs : List ℕ) → ja4_count (without_grease vs) ≡ ja4_count vs
unfolding ja4_count
ja4_count-without_grease vs = rw (without_grease_twice vs) refl

sigalgs_suffix-without_grease :
    (sigs : Option (List ℕ)) → sigalgs_suffix (map_option without_grease sigs) ≡ sigalgs_suffix sigs
unfolding sigalgs_suffix
sigalgs_suffix-without_grease none = refl
sigalgs_suffix-without_grease (some sigs) = rw (without_grease_twice sigs) refl

hashed_extensions-without_grease :
    (vs : List ℕ) → hashed_extensions (without_grease vs) ≡ hashed_extensions vs
unfolding hashed_extensions
hashed_extensions-without_grease vs = rw (without_grease_twice vs) refl

offered-without_grease :
    (vs : Option (List ℕ))
    → without_grease (unwrap_or [] (map_option without_grease vs))
      ≡ without_grease (unwrap_or [] vs)
unfolding without_grease
offered-without_grease none = refl
offered-without_grease (some vs) = without_grease_twice vs

ja4-ungreased :
    (sha256 : Bytes → Bytes) (m : ClientHelloMetadata) → ja4 sha256 (ungreased m) ≡ ja4 sha256 m
unfolding ja4 ja4_a ja4_b ja4_c ja4_tls_version_str ja4_alpn_chars
ja4-ungreased sha256 m =
    rw
      (
        offered-without_grease m.supported_versions,
        ja4_count-without_grease m.cipher_suites,
        ja4_count-without_grease m.extension_order,
        without_grease_twice m.cipher_suites,
        hashed_extensions-without_grease m.extension_order,
        sigalgs_suffix-without_grease m.signature_algorithms,
      )
      refl

is_some-map_option : (vs : Option (List ℕ)) → is_some (map_option without_grease vs) ≡ is_some vs
is_some-map_option none = refl
is_some-map_option (some vs) = refl

browser_score-ungreased : (m : ClientHelloMetadata) → browser_score (ungreased m) ≡ browser_score m
unfolding browser_score offers has_post_quantum_key_share
browser_score-ungreased m =
    rw (without_grease_twice m.extension_order, is_some-map_option m.signature_algorithms) refl

likely_launch_source-ungreased :
    (sha256 : Bytes → Bytes) (m : ClientHelloMetadata)
    → likely_launch_source sha256 (ungreased m) ≡ likely_launch_source sha256 m
likely_launch_source-ungreased sha256 m =
    let same = ap (λ f. known_client_from_ja4 f.raw) (ja4-ungreased sha256 m) in
    elim (Option-cases (known_client_from_ja4 (ja4 sha256 m).raw)) [
      | inl n ↦
          likely-miss sha256 (ungreased m) (same ∙ n)
          ∙ ap bucket (browser_score-ungreased m)
          ∙ sym (likely-miss sha256 m n)
      | inr (c, k) ↦ likely-hit sha256 (ungreased m) c (same ∙ k) ∙ sym (likely-hit sha256 m c k)
    ]

-- Two hellos that differ only in the GREASE of their cipher suites, extensions, groups, versions and
-- signature algorithms have the same JA3 fingerprint, the same JA4 fingerprint and the same class,
-- whatever the digests are.
pub ungreased-fingerprints :
    (md5 sha256 : Bytes → Bytes) (m n : ClientHelloMetadata)
    → ungreased m ≡ ungreased n
    → (ja3 md5 m ≡ ja3 md5 n)
      × (ja4 sha256 m ≡ ja4 sha256 n)
      × (likely_launch_source sha256 m ≡ likely_launch_source sha256 n)
ungreased-fingerprints md5 sha256 m n e = (
  sym (ja3-ungreased md5 m) ∙ ap (ja3 md5) e ∙ ja3-ungreased md5 n,
  sym (ja4-ungreased sha256 m) ∙ ap (ja4 sha256) e ∙ ja4-ungreased sha256 n,
  sym (likely_launch_source-ungreased sha256 m)
      ∙ ap (likely_launch_source sha256) e
      ∙ likely_launch_source-ungreased sha256 n,
)
