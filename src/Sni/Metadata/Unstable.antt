-- ===== src/Sni/Metadata/Unstable.antt =====
-- crates/aegiuw-core/src/sni.rs, the module `unstable` and `unstable_extensions`, which the feature of
-- that name turns on.
use aegiuw.Prelude.{
  ltb, leb, ◌==◌, if◌then◌else◌, Bool-cases, filter, ℕ, ◌≡◌, refl, inl, inr, Bool, ◌&&◌, Option,
  none, some, List, [], ◌∷◌, map, arith,
}
use aegiuw.Sni.Types.{ClientHelloMetadata, ext_encrypted_client_hello}

pub data UnstableExtension : Type 0 where
  ech_draft : UnstableExtension
  tls_flags : UnstableExtension
  trust_anchor_ids : UnstableExtension

abbrev pub unstable_extension_table : List (ℕ × UnstableExtension)
unstable_extension_table =
    (0xfe08, ech_draft)
    ∷ (0xfe09, ech_draft)
    ∷ (0xfe0a, ech_draft)
    ∷ (0xfe0b, ech_draft)
    ∷ (0xfe0c, ech_draft)
    ∷ []

-- `find` by the code, and the class of what it finds.
unfoldable pub find_class : ℕ → List (ℕ × UnstableExtension) → Option UnstableExtension
find_class t [] = none
find_class t ((code, class) ∷ table) = if code == t then some class else find_class t table

unfoldable pub classify_unstable : ℕ → Option UnstableExtension
unfolding find_class
classify_unstable ext_type = find_class ext_type unstable_extension_table

unfoldable pub push_class :
    ℕ → Option UnstableExtension → List (ℕ × UnstableExtension) → List (ℕ × UnstableExtension)
push_class t none rest = rest
push_class t (some class) rest = (t, class) ∷ rest

-- `filter_map` with the class beside the type.
unfoldable pub classified : List ℕ → List (ℕ × UnstableExtension)
unfolding push_class
classified [] = []
classified (t ∷ ts) = push_class t (classify_unstable t) (classified ts)

unfoldable pub unstable_extensions : ClientHelloMetadata → List (ℕ × UnstableExtension)
unfolding classified
unstable_extensions m = classified m.extension_order

-- The codes of the drafts of Encrypted Client Hello.
abbrev pub is_ech_draft : ℕ → Bool
is_ech_draft t = leb 0xfe08 t && ltb t ext_encrypted_client_hello

classify_unstable-draft :
    (t : ℕ) → classify_unstable t ≡ (if is_ech_draft t then some ech_draft else none)
unfolding classify_unstable find_class
classify_unstable-draft t = ground arith

classified-filter :
    (ts : List ℕ) → classified ts ≡ map (λ t. (t, ech_draft)) (filter is_ech_draft ts)
unfolding classified push_class
classified-filter [] = refl
classified-filter (t ∷ ts) = elim (Bool-cases (is_ech_draft t)) [
  | inl y ↦ rw (classify_unstable-draft t, y, classified-filter ts) refl
  | inr n ↦ rw (classify_unstable-draft t, n, classified-filter ts) refl
]

-- The unstable extensions of a hello are the extension types from 0xFE08 up to, but not with, that of
-- the final Encrypted Client Hello, in the order of the wire and each as a draft of it.
pub unstable_extensions-filter :
    (m : ClientHelloMetadata)
    → unstable_extensions m ≡ map (λ t. (t, ech_draft)) (filter is_ech_draft m.extension_order)
unfolding unstable_extensions
unstable_extensions-filter m = classified-filter m.extension_order
