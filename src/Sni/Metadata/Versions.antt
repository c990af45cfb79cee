-- ===== src/Sni/Metadata/Versions.antt =====
-- crates/aegiuw-core/src/sni.rs, `TlsVersion` and the methods that read `supported_versions`.
use aegiuw.Prelude.{
  ltb, ◌==◌, if◌then◌else◌, ==_iff, Bool-cases, any, Option-cases, map_option, unwrap_or, ℕ, ◌≤◌,
  ◌<◌, max, ◌≡◌, refl, sym, ap, ◌∙◌, ◌≢◌, inl, inr, Bool, true, ◌||◌, Option, none, some, List, [],
  ◌∷◌, map, arith,
}
use aegiuw.Sni.Types.{ClientHelloMetadata}

-- In ascending order, which the derived `Ord` follows.
pub data TlsVersion : Type 0 where
  other : TlsVersion
  ssl30 : TlsVersion
  tls10 : TlsVersion
  tls11 : TlsVersion
  tls12 : TlsVersion
  tls13 : TlsVersion

-- The place of a version in the declaration, by which the derived instances compare.
abbrev pub rank : TlsVersion → ℕ
rank other = 0
rank ssl30 = 1
rank tls10 = 2
rank tls11 = 3
rank tls12 = 4
rank tls13 = 5

unfoldable pub from_wire : ℕ → TlsVersion
from_wire value =
    if value == 0x0300
    then ssl30
    else if value == 0x0301
    then tls10
    else if value == 0x0302
    then tls11
    else if value == 0x0303
    then tls12
    else if value == 0x0304
    then tls13
    else other

unfoldable pub supported_versions_classified : ClientHelloMetadata → Option (List TlsVersion)
unfolding from_wire
supported_versions_classified m = map_option (map from_wire) m.supported_versions

unfoldable pub offers_tls_version : ClientHelloMetadata → TlsVersion → Bool
unfolding from_wire
offers_tls_version m version = elim (m.supported_versions) [
  | some versions ↦ any (λ v. rank (from_wire v) == rank version) versions
  | none ↦ rank version == rank tls12
]

-- `Ord::max` of the greatest so far and another.
unfoldable pub better : Option TlsVersion → TlsVersion → TlsVersion
better none v = v
better (some b) v = if ltb (rank v) (rank b) then b else v

-- `.filter(known).max()`, with the greatest so far.
unfoldable pub highest_from : Option TlsVersion → List TlsVersion → Option TlsVersion
unfolding better
highest_from best [] = best
highest_from best (v ∷ vs) =
    let passed = highest_from best vs in
    let taken = highest_from (some (better best v)) vs in
    if rank v == rank other then passed else taken

unfoldable pub highest_supported_tls_version : ClientHelloMetadata → TlsVersion
unfolding from_wire highest_from
highest_supported_tls_version m = elim (m.supported_versions) [
  | none ↦ tls12
  | some versions ↦ unwrap_or tls12 (highest_from none (map from_wire versions))
]

unfoldable pub best_rank : Option TlsVersion → ℕ
best_rank none = 0
best_rank (some v) = rank v

unfoldable pub greatest_rank : List TlsVersion → ℕ
greatest_rank [] = 0
greatest_rank (v ∷ vs) = max (rank v) (greatest_rank vs)

rank-better :
    (best : Option TlsVersion) (v : TlsVersion)
    → rank (better best v) ≡ max (best_rank best) (rank v)
unfolding better best_rank
rank-better none v = omega arith
rank-better (some b) v = elim (Bool-cases (ltb (rank v) (rank b))) [
  | inl y ↦ rw y (ground arith)
  | inr n ↦ rw n (ground arith)
]

pub best_rank-highest_from :
    (vs : List TlsVersion) (best : Option TlsVersion)
    → best_rank (highest_from best vs) ≡ max (best_rank best) (greatest_rank vs)
unfolding highest_from greatest_rank
best_rank-highest_from [] best = omega arith
best_rank-highest_from (v ∷ vs) best = elim (Bool-cases (rank v == 0)) [
  | inl y ↦ rw y (omega (arith, (==_iff (rank v) 0).0 y, best_rank-highest_from vs best))
  | inr n ↦
      let step : best_rank (some (better best v)) ≡ max (best_rank best) (rank v) =
        unfold best_rank in rank-better best v in
      rw n (omega (arith, best_rank-highest_from vs (some (better best v)), step))
]

-- A version of a list has at most the greatest rank, and one has it.
any-greatest_rank :
    (vs : List TlsVersion) (v : TlsVersion)
    → any (λ w. rank w == rank v) vs ≡ true
    → rank v ≤ greatest_rank vs
unfolding greatest_rank
any-greatest_rank [] v e = absurd (cc)
any-greatest_rank (w ∷ vs) v e = ground (arith, any-greatest_rank vs v)

greatest_rank-any :
    (vs : List TlsVersion) (n : ℕ) → n ≡ greatest_rank vs → 0 < n → any (λ w. rank w == n) vs ≡ true
unfolding greatest_rank
greatest_rank-any [] n e p = absurd (omega arith)
greatest_rank-any (w ∷ vs) n e p = ground (arith, greatest_rank-any vs n)

any-map :
    (p : TlsVersion → Bool) (xs : List ℕ) → any p (map from_wire xs) ≡ any (λ x. p (from_wire x)) xs
any-map p [] = refl
any-map p (x ∷ xs) = ap (λ b. p (from_wire x) || b) (any-map p xs)

unfoldable pub highest_of : List ℕ → TlsVersion
highest_of ws = unwrap_or tls12 (highest_from none (map from_wire ws))

pub rank-highest_of :
    (ws : List ℕ)
    → 0 < greatest_rank (map from_wire ws)
    → rank (highest_of ws) ≡ greatest_rank (map from_wire ws)
unfolding highest_of best_rank
rank-highest_of ws p =
    go (highest_from none (map from_wire ws)) (best_rank-highest_from (map from_wire ws) none)
  where
    go :
        (o : Option TlsVersion)
        → best_rank o ≡ max (best_rank none) (greatest_rank (map from_wire ws))
        → rank (unwrap_or tls12 o) ≡ greatest_rank (map from_wire ws)
    go none e = absurd (omega arith)
    go (some h) e = omega arith

offered-highest_of :
    (ws : List ℕ) (v : TlsVersion)
    → any (λ x. rank (from_wire x) == rank v) ws ≡ true
    → 0 < rank v
    → (any (λ x. rank (from_wire x) == rank (highest_of ws)) ws ≡ true)
      × (rank v ≤ rank (highest_of ws))
offered-highest_of ws v e p =
    let le = any-greatest_rank (map from_wire ws) v (any-map (λ w. rank w == rank v) ws ∙ e) in
    let same = rank-highest_of ws (omega arith) in
    (
      sym (any-map (λ w. rank w == rank (highest_of ws)) ws)
          ∙ greatest_rank-any (map from_wire ws) (rank (highest_of ws)) same (omega arith),
      omega arith,
    )

-- If a known version is offered, then the highest supported version is offered, and it is at least
-- that one: unknown values among the offered ones never hide a known version.
pub highest_supported_tls_version_lem :
    (m : ClientHelloMetadata) (v : TlsVersion)
    → offers_tls_version m v ≡ true
    → v ≢ other
    → (offers_tls_version m (highest_supported_tls_version m) ≡ true)
      × (rank v ≤ rank (highest_supported_tls_version m))
unfolding offers_tls_version highest_supported_tls_version highest_of
highest_supported_tls_version_lem m v e k =
    let known : 0 < rank v = ground arith in
    elim (Option-cases m.supported_versions) [
      | inl n ↦ rw n (refl, omega (arith, (==_iff (rank v) (rank tls12)).0 (rw n at e)))
      | inr (ws, p) ↦ rw p (offered-highest_of ws v (rw p at e) known)
    ]
