-- ===== src/Fingerprint/Ja3/Fields.antt =====
-- The text of a JA3 fingerprint, taken apart.
use aegiuw.Prelude.{
  if◌then◌else◌, Bool-cases, Bytes, unwrap_or, ℕ, ◌≡◌, refl, sym, ap, ◌∙◌, inl, inr, Bool, true,
  false, Option, none, some, List, [], ◌∷◌, ◌++◌, map, append-nil, append_assoc,
}
use aegiuw.Sni.Types.{ClientHelloMetadata, tls_legacy_version}
use aegiuw.Fingerprint.{is_grease_codepoint, without_grease, decimal}
use aegiuw.Fingerprint.Join.{
  join, join_rest, split_on, read_numbers, read_numbers-join, split_on-append, split_on-Avoids,
  Avoids-join,
}
use aegiuw.Fingerprint.Ja3.{
  write_u16s, write_u16_list, write_u8s, write_u8_list, write_groups, write_formats, ja3_raw,
}

write_u8s-rest : (out vs : Bytes) → write_u8s out false vs ≡ out ++ join_rest b'-' vs
unfolding write_u8s join_rest
write_u8s-rest out [] = sym (append-nil out)
write_u8s-rest out (v ∷ vs) =
    write_u8s-rest ((out ++ b'-' ∷ []) ++ decimal v) vs
    ∙ append_assoc (out ++ b'-' ∷ []) (decimal v) (join_rest b'-' vs)
    ∙ append_assoc out (b'-' ∷ []) (decimal v ++ join_rest b'-' vs)

write_u8_list-join : (out vs : Bytes) → write_u8_list out vs ≡ out ++ join b'-' vs
unfolding write_u8_list write_u8s join
write_u8_list-join out [] = sym (append-nil out)
write_u8_list-join out (v ∷ vs) =
    write_u8s-rest (out ++ decimal v) vs ∙ append_assoc out (decimal v) (join_rest b'-' vs)

-- The loop over numbers that may be GREASE is the loop over those that are not.
write_u16s-filter :
    (out : Bytes) (first : Bool) (vs : List ℕ)
    → write_u16s true out first vs ≡ write_u8s out first (without_grease vs)
unfolding write_u16s write_u8s without_grease
write_u16s-filter out first [] = refl
write_u16s-filter out first (v ∷ vs) = elim (Bool-cases (is_grease_codepoint v)) [
  | inl y ↦ rw y (write_u16s-filter out first vs)
  | inr n ↦
      rw n (write_u16s-filter ((if first then out else out ++ b'-' ∷ []) ++ decimal v) false vs)
]

pub write_u16_list-join :
    (out : Bytes) (vs : List ℕ) → write_u16_list out vs true ≡ out ++ join b'-' (without_grease vs)
unfolding write_u16_list write_u8_list
write_u16_list-join out vs =
    write_u16s-filter out true vs
    ∙ (unfold write_u8_list in write_u8_list-join out (without_grease vs))

abbrev pub kept_groups : ClientHelloMetadata → List ℕ
kept_groups m = without_grease (unwrap_or [] m.supported_groups)

abbrev pub kept_formats : ClientHelloMetadata → Bytes
kept_formats m = unwrap_or [] m.ec_point_formats

write_groups-join :
    (out : Bytes) (o : Option (List ℕ))
    → write_groups out o ≡ out ++ join b'-' (without_grease (unwrap_or [] o))
unfolding write_groups join without_grease
write_groups-join out none = sym (append-nil out)
write_groups-join out (some groups) = write_u16_list-join out groups

write_formats-join :
    (out : Bytes) (o : Option Bytes) → write_formats out o ≡ out ++ join b'-' (unwrap_or [] o)
unfolding write_formats join
write_formats-join out none = sym (append-nil out)
write_formats-join out (some formats) = write_u8_list-join out formats

-- The five fields with commas between them.
ja3_raw-join :
    (m : ClientHelloMetadata)
    → ja3_raw m
      ≡ decimal tls_legacy_version
        ++ b','
          ∷ (join b'-' (without_grease m.cipher_suites)
              ++ b','
                ∷ (join b'-' (without_grease m.extension_order)
                    ++ b',' ∷ (join b'-' (kept_groups m) ++ b',' ∷ join b'-' (kept_formats m))))
unfolding ja3_raw
ja3_raw-join m = simp (write_formats-join, write_groups-join, write_u16_list-join, append_assoc)

version_first :
    (s : Bytes) → decimal tls_legacy_version ++ s ≡ join b'-' (tls_legacy_version ∷ []) ++ s
unfolding join join_rest
version_first s = ap (λ t. t ++ s) (sym (append-nil (decimal tls_legacy_version)))

field-last : (vs : List ℕ) → map (read_numbers b'-') (split_on b',' (join b'-' vs)) ≡ vs ∷ []
field-last vs =
    rw
      (
        split_on-Avoids b',' (join b'-' vs) (Avoids-join b',' b'-' vs refl refl),
        read_numbers-join b'-' vs refl,
      )
      refl

field-split :
    (vs : List ℕ) (s : Bytes)
    → map (read_numbers b'-') (split_on b',' (join b'-' vs ++ b',' ∷ s))
      ≡ vs ∷ map (read_numbers b'-') (split_on b',' s)
field-split vs s =
    rw
      (
        split_on-append b',' (join b'-' vs) s (Avoids-join b',' b'-' vs refl refl),
        read_numbers-join b'-' vs refl,
      )
      refl

-- The text of a JA3 fingerprint, split at its commas and hyphens, gives back the version, the cipher
-- suites, the extension types and the groups, each without its GREASE values and in the order of the
-- wire, and the point formats; an extension that did not come reads as an empty list.
pub ja3_raw-fields :
    (m : ClientHelloMetadata)
    → map (read_numbers b'-') (split_on b',' (ja3_raw m))
      ≡ (tls_legacy_version ∷ [])
        ∷ without_grease m.cipher_suites
        ∷ without_grease m.extension_order
        ∷ kept_groups m
        ∷ kept_formats m
        ∷ []
ja3_raw-fields m =
    ap (λ s. map (read_numbers b'-') (split_on b',' s)) (ja3_raw-join m ∙ version_first _)
    ∙ rw
        (
          field-split (tls_legacy_version ∷ []),
          field-split (without_grease m.cipher_suites),
          field-split (without_grease m.extension_order),
          field-split (kept_groups m),
          field-last (kept_formats m),
        )
        refl
