-- ===== src/Sni/Metadata/Groups.antt =====
-- crates/aegiuw-core/src/sni.rs, `KeyShareGroup` and the methods that read `key_share_groups`.
use aegiuw.Prelude.{
  ◌==◌, if◌then◌else◌, ==_iff, ==_refl, Bool-cases, any, Option-cases, map_option, ℕ, ◌≡◌, refl, ap,
  ◌∙◌, ◌↔◌, inl, inr, Bool, true, false, Option, none, some, List, [], ◌∷◌, map, arith,
}
use aegiuw.Sni.Types.{ClientHelloMetadata}

pub data KeyShareGroup : Type 0 where
  other : KeyShareGroup
  secp256r1 : KeyShareGroup
  x25519 : KeyShareGroup
  x25519_ml_kem768 : KeyShareGroup
  sec_p256r1_ml_kem768 : KeyShareGroup
  x25519_kyber768_draft00 : KeyShareGroup

-- The place in the declaration, by which the derived `PartialEq` compares.
abbrev pub rank : KeyShareGroup → ℕ
rank other = 0
rank secp256r1 = 1
rank x25519 = 2
rank x25519_ml_kem768 = 3
rank sec_p256r1_ml_kem768 = 4
rank x25519_kyber768_draft00 = 5

unfoldable pub from_wire : ℕ → KeyShareGroup
from_wire value =
    if value == 0x0017
    then secp256r1
    else if value == 0x001d
    then x25519
    else if value == 0x11ec
    then x25519_ml_kem768
    else if value == 0x1140
    then sec_p256r1_ml_kem768
    else if value == 0x6399
    then x25519_kyber768_draft00
    else other

unfoldable pub is_post_quantum : KeyShareGroup → Bool
is_post_quantum x25519_ml_kem768 = true
is_post_quantum sec_p256r1_ml_kem768 = true
is_post_quantum x25519_kyber768_draft00 = true
is_post_quantum _ = false

unfoldable pub key_share_groups_classified : ClientHelloMetadata → Option (List KeyShareGroup)
unfolding from_wire
key_share_groups_classified m = map_option (map from_wire) m.key_share_groups

unfoldable pub offers_key_share_group : ClientHelloMetadata → KeyShareGroup → Bool
unfolding from_wire
offers_key_share_group m group = elim (m.key_share_groups) [
  | none ↦ false
  | some groups ↦ any (λ g. rank (from_wire g) == rank group) groups
]

unfoldable pub has_post_quantum_key_share : ClientHelloMetadata → Bool
unfolding from_wire is_post_quantum
has_post_quantum_key_share m = elim (m.key_share_groups) [
  | none ↦ false
  | some groups ↦ any (λ g. is_post_quantum (from_wire g)) groups
]

rank_injective : (a b : KeyShareGroup) → rank a ≡ rank b → a ≡ b
rank_injective a b e = ground arith

-- A group of the list that is post-quantum.
abbrev Offered : List ℕ → Type 0
Offered gs =
    (g : KeyShareGroup) × (any (λ x. rank (from_wire x) == rank g) gs ≡ true)
    × (is_post_quantum g ≡ true)

any-Offered : (gs : List ℕ) → any (λ g. is_post_quantum (from_wire g)) gs ≡ true → Offered gs
any-Offered [] e = absurd (cc)
any-Offered (x ∷ gs) e = elim (Bool-cases (is_post_quantum (from_wire x))) [
  | inl y ↦ (from_wire x, rw (==_refl (rank (from_wire x))) refl, y)
  | inr n ↦ let (g, p, q) = any-Offered gs (rw n at e) in (g, ground (arith, p), q)
]

Offered-any : (gs : List ℕ) → Offered gs → any (λ g. is_post_quantum (from_wire g)) gs ≡ true
Offered-any [] (g, p, q) = absurd (cc)
Offered-any (x ∷ gs) (g, p, q) = elim (Bool-cases (rank (from_wire x) == rank g)) [
  | inl y ↦
      let same = rank_injective (from_wire x) g ((==_iff _ _).0 y) in
      rw (ap is_post_quantum same ∙ q) refl
  | inr n ↦ let rest = Offered-any gs (g, rw n at p, q) in ground (arith, rest)
]

-- There is a post-quantum key share exactly when some group is offered that is post-quantum.
pub has_post_quantum_key_share_iff :
    (m : ClientHelloMetadata)
    → (has_post_quantum_key_share m ≡ true)
      ↔ ((g : KeyShareGroup) × (offers_key_share_group m g ≡ true) × (is_post_quantum g ≡ true))
unfolding has_post_quantum_key_share offers_key_share_group
has_post_quantum_key_share_iff m = elim (Option-cases m.key_share_groups) [
  | inl n ↦ rw n (λ e. absurd (cc), λ (g, p, q). absurd (cc))
  | inr (gs, e) ↦ rw e (any-Offered gs, Offered-any gs)
]
