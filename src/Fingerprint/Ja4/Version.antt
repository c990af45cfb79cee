-- ===== src/Fingerprint/Ja4/Version.antt =====
-- The version that JA4 shows, and the one that the metadata report.
use aegiuw.Prelude.{
  ==_iff, Bytes, Option-cases, unwrap_or, ℕ, ◌+◌, ◌-◌, ◌≤◌, ◌<◌, max, ◌≡◌, refl, ap, ◌∙◌, ◌⊎◌, inl,
  inr, true, false, Option, none, some, List, [], ◌∷◌, map, arith,
}
use aegiuw.Prelude.Text.{codes}
use aegiuw.Sni.Types.{ClientHelloMetadata, tls_legacy_version}
use aegiuw.Sni.Metadata.Versions.{
  TlsVersion, other, ssl30, tls10, tls11, tls12, tls13, rank, from_wire, highest_of, greatest_rank,
  highest_from, rank-highest_of, highest_supported_tls_version,
}
use aegiuw.Fingerprint.{is_grease_codepoint, without_grease}
use aegiuw.Fingerprint.Ja4.{greatest, version_str, ja4_tls_version_str}

-- The two characters of a version.
abbrev pub version_code : TlsVersion → Bytes
version_code other = codes "00"
version_code ssl30 = codes "s3"
version_code tls10 = codes "10"
version_code tls11 = codes "11"
version_code tls12 = codes "12"
version_code tls13 = codes "13"

-- Every value is GREASE or a version that has a name.
abbrev pub AllNamed : List ℕ → Type 0
AllNamed [] = Unit
AllNamed (v ∷ vs) = ((is_grease_codepoint v ≡ true) ⊎ ((0x0300 ≤ v) × (v ≤ 0x0304))) × AllNamed vs

-- The value of a version with a rank.
InRange : Option ℕ → Type 0
InRange none = Unit
InRange (some w) = (0x0300 ≤ w) × (w ≤ 0x0304)

rank_of : Option ℕ → ℕ
rank_of none = 0
rank_of (some w) = w - 0x02ff

rank-grease : (v : ℕ) → is_grease_codepoint v ≡ true → rank (from_wire v) ≡ 0
unfolding is_grease_codepoint from_wire
rank-grease v e = ground arith

rank-named : (v : ℕ) → 0x0300 ≤ v → v ≤ 0x0304 → rank (from_wire v) ≡ v - 0x02ff
unfolding from_wire
rank-named v lo hi = ground arith

not-grease : (v : ℕ) → 0x0300 ≤ v → v ≤ 0x0304 → is_grease_codepoint v ≡ false
unfolding is_grease_codepoint
not-grease v lo hi = ground arith

greatest-named :
    (vs : List ℕ)
    → AllNamed vs
    → InRange (greatest (without_grease vs))
      × (greatest_rank (map from_wire vs) ≡ rank_of (greatest (without_grease vs)))
unfolding greatest without_grease greatest_rank InRange rank_of
greatest-named [] k = (tt, refl)
greatest-named (v ∷ vs) (inl g, k) =
    let (r, e) = greatest-named vs k in rw g (r, omega (arith, rank-grease v g, e))
greatest-named (v ∷ vs) (inr (lo, hi), k) =
    let (r, e) = greatest-named vs k in
    rw (not-grease v lo hi) (go (greatest (without_grease vs)) r e)
  where
    go :
        (o : Option ℕ)
        → InRange o
        → greatest_rank (map from_wire vs) ≡ rank_of o
        → InRange (elim o as (λ _. Option ℕ) [ none ↦ some v | some w ↦ some (max v w) ])
          × (max (rank (from_wire v)) (greatest_rank (map from_wire vs))
              ≡ rank_of (elim o as (λ _. Option ℕ) [ none ↦ some v | some w ↦ some (max v w) ]))
    go none r e = ((lo, hi), omega (arith, rank-named v lo hi))
    go (some w) r e = ((omega arith, omega arith), omega (arith, rank-named v lo hi))

-- Without a known version there is none to report.
highest_from-none : (vs : List TlsVersion) → greatest_rank vs ≡ 0 → highest_from none vs ≡ none
unfolding highest_from greatest_rank
highest_from-none [] e = refl
highest_from-none (v ∷ vs) e =
    rw ((==_iff (rank v) 0).1 (omega arith)) (highest_from-none vs (omega arith))

version_str-rank : (t : TlsVersion) → 0 < rank t → version_str (0x02ff + rank t) ≡ version_code t
unfolding version_str
version_str-rank other p = absurd (omega arith)
version_str-rank ssl30 p = refl
version_str-rank tls10 p = refl
version_str-rank tls11 p = refl
version_str-rank tls12 p = refl
version_str-rank tls13 p = refl

-- The greatest value, if there is one, is that of the highest version.
offered-code :
    (vs : List ℕ)
    → AllNamed vs
    → version_str (unwrap_or tls_legacy_version (greatest (without_grease vs)))
      ≡ version_code (highest_of vs)
unfolding InRange rank_of highest_of
offered-code vs k = let (r, e) = greatest-named vs k in go (greatest (without_grease vs)) r e
  where
    go :
        (o : Option ℕ)
        → InRange o
        → greatest_rank (map from_wire vs) ≡ rank_of o
        → version_str (unwrap_or tls_legacy_version o) ≡ version_code (highest_of vs)
    go none r e = rw (highest_from-none (map from_wire vs) e) (version_str-rank tls12 (omega arith))
    go (some w) (lo, hi) e =
        let same = rank-highest_of vs (omega arith) in
        let value : w ≡ 0x02ff + rank (highest_of vs) = omega arith in
        ap version_str value ∙ version_str-rank (highest_of vs) (omega arith)

-- Where every offered value is GREASE or a version from SSL 3.0 to TLS 1.3, the version that JA4 shows
-- is the highest version that the metadata report.
pub ja4_tls_version_str_lem :
    (m : ClientHelloMetadata)
    → AllNamed (unwrap_or [] m.supported_versions)
    → ja4_tls_version_str m ≡ version_code (highest_supported_tls_version m)
unfolding ja4_tls_version_str highest_supported_tls_version highest_of greatest version_str
    without_grease
ja4_tls_version_str_lem m k = elim (Option-cases m.supported_versions) [
  | inl n ↦ rw n refl
  | inr (vs, e) ↦ rw e (offered-code vs (rw e at k))
]
