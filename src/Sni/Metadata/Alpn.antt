-- ===== src/Sni/Metadata/Alpn.antt =====
-- crates/aegiuw-core/src/sni.rs, `AlpnProtocol` and the methods that read `alpn_protocols`.
use aegiuw.Prelude.{
  ◌==◌, if◌then◌else◌, ==_iff, ==_refl, Bool-cases, Bytes, any, Option-cases, map_option, ℕ, ◌≡◌,
  refl, sym, ap, ◌∙◌, subst, ◌↔◌, ◌⊎◌, inl, inr, Bool, true, false, not, ◌&&◌, Option, none, some,
  some-injective, List, [], ◌∷◌, map, arith,
}
use aegiuw.Prelude.Text.{codes}
use aegiuw.Sni.Types.{ClientHelloMetadata}
use aegiuw.Sni.Extract.{eq_bytes}

pub data AlpnProtocol : Type 0 where
  http10 : AlpnProtocol
  http11 : AlpnProtocol
  http2 : AlpnProtocol
  http3 : AlpnProtocol
  other : AlpnProtocol

-- The place in the declaration, by which the derived `PartialEq` compares.
abbrev pub rank : AlpnProtocol → ℕ
rank http10 = 0
rank http11 = 1
rank http2 = 2
rank http3 = 3
rank other = 4

-- `v.starts_with(b"h3-")`.
abbrev h3_draft : Bytes → Bool
h3_draft (a ∷ b ∷ c ∷ v) = a == b'h' && b == b'3' && c == b'-'
h3_draft _ = false

unfoldable pub from_wire : Bytes → AlpnProtocol
unfolding eq_bytes
from_wire value =
    if eq_bytes value (codes "http/1.0")
    then http10
    else if eq_bytes value (codes "http/1.1")
    then http11
    else if eq_bytes value (codes "h2")
    then http2
    else if eq_bytes value (codes "h3")
    then http3
    else if h3_draft value
    then http3
    else other

unfoldable pub is_http : AlpnProtocol → Bool
is_http p = not (rank p == rank other)

unfoldable pub alpn_classified : ClientHelloMetadata → Option (List AlpnProtocol)
unfolding from_wire
alpn_classified m = map_option (map from_wire) m.alpn_protocols

unfoldable pub offers : ClientHelloMetadata → AlpnProtocol → Bool
unfolding from_wire
offers m proto = elim (m.alpn_protocols) [
  | none ↦ false
  | some protos ↦ any (λ p. rank (from_wire p) == rank proto) protos
]

rank_injective : (a b : AlpnProtocol) → rank a ≡ rank b → a ≡ b
rank_injective a b e = ground arith

-- `p` stands in the list.
abbrev pub Lists : AlpnProtocol → List AlpnProtocol → Type 0
Lists p [] = ⊥
Lists p (q ∷ qs) = (q ≡ p) ⊎ Lists p qs

offers_cons_differs :
    (proto : AlpnProtocol) (p : Bytes) (ps : List Bytes)
    → (rank (from_wire p) == rank proto) ≡ false
    → (Lists proto (map from_wire ps) → any (λ p. rank (from_wire p) == rank proto) ps ≡ true)
    → (from_wire p ≡ proto) ⊎ Lists proto (map from_wire ps)
    → any (λ p. rank (from_wire p) == rank proto) ps ≡ true
offers_cons_differs proto p ps n k (inl e) =
    absurd (cc (sym n ∙ ap (λ q. rank q == rank proto) e ∙ ==_refl (rank proto)))
offers_cons_differs proto p ps n k (inr l) = k l

any-Lists :
    (proto : AlpnProtocol) (ps : List Bytes)
    → (any (λ p. rank (from_wire p) == rank proto) ps ≡ true) ↔ Lists proto (map from_wire ps)
any-Lists proto [] = (λ e. absurd (cc), λ e. absurd e)
any-Lists proto (p ∷ ps) = elim (Bool-cases (rank (from_wire p) == rank proto)) [
  | inl y ↦
      rw y
        (λ e. inl (rank_injective _ _ ((==_iff (rank (from_wire p)) (rank proto)).0 y)), λ e. refl)
  | inr n ↦ rw n (
    λ e. inr ((any-Lists proto ps).0 e),
    offers_cons_differs proto p ps n ((any-Lists proto ps).1),
  )
]

-- A protocol is offered exactly when the classified list has it.
pub offers_iff :
    (m : ClientHelloMetadata) (proto : AlpnProtocol)
    → (offers m proto ≡ true)
      ↔ ((ps : List AlpnProtocol) × (alpn_classified m ≡ some ps) × Lists proto ps)
unfolding offers alpn_classified
offers_iff m proto = elim (Option-cases m.alpn_protocols) [
  | inl n ↦ rw n (λ e. absurd (cc), λ (ps, e, l). absurd (cc))
  | inr (ps, e) ↦ rw e (
    λ t. (map from_wire ps, refl, (any-Lists proto ps).0 t),
    λ (qs, p, l). (any-Lists proto ps).1 (subst (Lists proto) (sym (some-injective _ _ p)) l),
  )
]
