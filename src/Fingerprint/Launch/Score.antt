-- ===== src/Fingerprint/Launch/Score.antt =====
-- What the classification says about the signals of a hello.
use aegiuw.Prelude.{
  leb, if◌then◌else◌, leb→le, Bool-cases, Bytes, length, Option-cases, is_some, ℕ, ◌+◌, ◌≤◌, ◌≡◌,
  refl, sym, ap, ◌∙◌, inl, inr, Bool, true, false, none, some, arith,
}
use aegiuw.Prelude.Text.{codes}
use aegiuw.Sni.Extract.{eq_bytes}
use aegiuw.Sni.Types.{ClientHelloMetadata}
use aegiuw.Sni.Metadata.Alpn.{http2, http3, offers}
use aegiuw.Sni.Metadata.Groups.{has_post_quantum_key_share}
use aegiuw.Fingerprint.{without_grease}
use aegiuw.Fingerprint.Ja4.{ja4}
use aegiuw.Fingerprint.Launch.{
  KnownClient, chrome, known_client_from_ja4, find_known, LaunchSource, browser, cli, library,
  unknown, ℤ, pos, minus, plus, at_least, is_negative, add_if, browser_score, bucket,
  launch_of_known, likely_launch_source,
}

abbrev points : Bool → ℕ → ℕ
points signal n = if signal then n else 0

-- The points of the signals, before the two that a small hello loses.
total : ClientHelloMetadata → ℕ
total m =
    0
    + points m.ech_present 3
    + points (has_post_quantum_key_share m) 3
    + points m.compress_certificate_present 1
    + points (offers m http3) 2
    + points (offers m http2) 1
    + points (is_some m.signature_algorithms) 1
    + points (leb 12 (length (without_grease m.extension_order))) 1

add_if-pos : (b : Bool) (k n : ℕ) → add_if b k (pos n) ≡ pos (n + points b k)
unfolding add_if plus
add_if-pos true k n = refl
add_if-pos false k n = ap pos (omega arith)

-- The score of a number of points.
unfoldable lowered : Bool → ℕ → ℤ
unfolding minus
lowered small n = if small then minus (pos n) 2 else pos n

browser_score-total :
    (m : ClientHelloMetadata)
    → browser_score m ≡ lowered (leb (length (without_grease m.extension_order)) 5) (total m)
unfolding browser_score total lowered
browser_score-total m =
    rw
      (
        add_if-pos m.ech_present,
        add_if-pos (has_post_quantum_key_share m),
        add_if-pos m.compress_certificate_present,
        add_if-pos (offers m http3),
        add_if-pos (offers m http2),
        add_if-pos (is_some m.signature_algorithms),
        add_if-pos (leb 12 (length (without_grease m.extension_order))),
      )
      refl

-- From the least likely to be a browser to the most.
abbrev pub likeness : LaunchSource → ℕ
likeness cli = 0
likeness unknown = 1
likeness library = 2
likeness browser = 3

likeness-pos :
    (n : ℕ) → likeness (bucket (pos n)) ≡ (if leb 5 n then 3 else if leb 2 n then 2 else 1)
unfolding bucket at_least is_negative
likeness-pos n = ground arith

likeness-lowered :
    (n : ℕ)
    → likeness (bucket (lowered true n))
      ≡ (if leb 7 n then 3 else if leb 4 n then 2 else if leb 2 n then 1 else 0)
unfolding bucket at_least is_negative lowered minus
likeness-lowered n = elim (Bool-cases (leb 2 n)) [
  | inl y ↦ rw y (ground arith)
  | inr z ↦ rw z (ground arith)
]

-- More points, and no fewer extensions, never make a hello less like a browser's.
bucket_mono :
    (small small' : Bool) (a b : ℕ)
    → (small' ≡ true → small ≡ true)
    → a ≤ b
    → likeness (bucket (lowered small a)) ≤ likeness (bucket (lowered small' b))
bucket_mono true true a b k h = rw (likeness-lowered a, likeness-lowered b) (ground arith)
bucket_mono true false a b k h =
    rw (likeness-lowered a) (unfold lowered in rw (likeness-pos b) (ground arith))
bucket_mono false true a b k h = absurd (cc (k refl))
bucket_mono false false a b k h =
    unfold lowered in rw (likeness-pos a, likeness-pos b) (ground arith)

known_client_from_ja4-chrome :
    (raw : Bytes) (c : KnownClient) → known_client_from_ja4 raw ≡ some c → c ≡ chrome
unfolding known_client_from_ja4 find_known
known_client_from_ja4-chrome raw c e =
    elim (Bool-cases (eq_bytes (codes "t13d1516h2_8daaf6152771_b186095e22b6") raw)) [
      | inl y ↦ let p : some chrome ≡ some c = rw y at e in cc
      | inr n ↦ let p : none ≡ some c = rw n at e in absurd (cc)
    ]

points-false : (b : Bool) (k : ℕ) → points b k ≤ 1 → 2 ≤ k → b ≡ false
points-false true k h g = absurd (omega arith)
points-false false k h g = refl

bucket-cli : (small : Bool) (n : ℕ) → bucket (lowered small n) ≡ cli → (small ≡ true) × (n ≤ 1)
unfolding lowered
bucket-cli true n e = let l = ap likeness e in (refl, ground (arith, likeness-lowered n))
bucket-cli false n e = let l = ap likeness e in absurd (ground (arith, likeness-pos n))

pub likely-hit :
    (sha256 : Bytes → Bytes) (m : ClientHelloMetadata) (c : KnownClient)
    → known_client_from_ja4 (ja4 sha256 m).raw ≡ some c
    → likely_launch_source sha256 m ≡ launch_of_known c
unfolding likely_launch_source launch_of_known
likely-hit sha256 m c k = rw (likely_launch_source, k) refl

pub likely-miss :
    (sha256 : Bytes → Bytes) (m : ClientHelloMetadata)
    → known_client_from_ja4 (ja4 sha256 m).raw ≡ none
    → likely_launch_source sha256 m ≡ bucket (browser_score m)
unfolding likely_launch_source
likely-miss sha256 m n = rw (likely_launch_source, n) refl

score-cli :
    (m : ClientHelloMetadata)
    → bucket (browser_score m) ≡ cli
    → (m.ech_present ≡ false)
      × (has_post_quantum_key_share m ≡ false)
      × (offers m http3 ≡ false)
      × (length (without_grease m.extension_order) ≤ 5)
unfolding total
score-cli m e =
    let (small, few) = bucket-cli _ (total m) (ap bucket (sym (browser_score-total m)) ∙ e) in
    (
      points-false m.ech_present 3 (omega (arith, few)) (omega arith),
      points-false (has_post_quantum_key_share m) 3 (omega (arith, few)) (omega arith),
      points-false (offers m http3) 2 (omega (arith, few)) (omega arith),
      leb→le _ _ small,
    )

-- A hello that is taken for a command-line tool has neither Encrypted Client Hello nor a
-- post-quantum key share, does not offer HTTP/3, and has at most five extensions besides GREASE.
pub likely_launch_source-cli :
    (sha256 : Bytes → Bytes) (m : ClientHelloMetadata)
    → likely_launch_source sha256 m ≡ cli
    → (m.ech_present ≡ false)
      × (has_post_quantum_key_share m ≡ false)
      × (offers m http3 ≡ false)
      × (length (without_grease m.extension_order) ≤ 5)
unfolding launch_of_known
likely_launch_source-cli sha256 m e =
    elim (Option-cases (known_client_from_ja4 (ja4 sha256 m).raw)) [
      | inl n ↦ score-cli m (sym (likely-miss sha256 m n) ∙ e)
      | inr (c, k) ↦
          let same = ap launch_of_known (sym (known_client_from_ja4-chrome _ c k)) in
          absurd (ground (arith, same ∙ sym (likely-hit sha256 m c k) ∙ e))
    ]

-- Every signal of a browser that `m` sends `n` sends too, with no fewer extensions besides GREASE.
pub record SignalsToo (m n : ClientHelloMetadata) : Type 0 where
  pub ech : m.ech_present ≡ true → n.ech_present ≡ true
  pub post_quantum : has_post_quantum_key_share m ≡ true → has_post_quantum_key_share n ≡ true
  pub compressed : m.compress_certificate_present ≡ true → n.compress_certificate_present ≡ true
  pub over_http3 : offers m http3 ≡ true → offers n http3 ≡ true
  pub over_http2 : offers m http2 ≡ true → offers n http2 ≡ true
  pub signed : is_some m.signature_algorithms ≡ true → is_some n.signature_algorithms ≡ true
  pub extensions :
      length (without_grease m.extension_order) ≤ length (without_grease n.extension_order)

points_mono : (a b : Bool) (k : ℕ) → (a ≡ true → b ≡ true) → points a k ≤ points b k
points_mono true b k h = rw (h refl) (omega arith)
points_mono false b k h = omega arith

total_mono : (m n : ClientHelloMetadata) → SignalsToo m n → total m ≤ total n
unfolding total
total_mono m n s = omega (
  arith,
  points_mono m.ech_present n.ech_present 3 s.ech,
  points_mono _ _ 3 s.post_quantum,
  points_mono _ _ 1 s.compressed,
  points_mono _ _ 2 s.over_http3,
  points_mono _ _ 1 s.over_http2,
  points_mono _ _ 1 s.signed,
  points_mono (leb 12 (length (without_grease m.extension_order)))
      (leb 12 (length (without_grease n.extension_order))) 1 (λ e. ground (arith, s.extensions)),
)

score_mono :
    (m n : ClientHelloMetadata)
    → SignalsToo m n
    → likeness (bucket (browser_score m)) ≤ likeness (bucket (browser_score n))
score_mono m n s =
    rw (browser_score-total m, browser_score-total n)
      (bucket_mono _ _ (total m) (total n) (λ e. ground (arith, s.extensions)) (total_mono m n s))

likeness_most : (l : LaunchSource) → likeness l ≤ likeness browser
likeness_most l = ground arith

-- Of two hellos of which the first is of no known client, where the second sends every signal of a
-- browser that the first sends (Encrypted Client Hello, a post-quantum key share, compressed
-- certificates, HTTP/3, HTTP/2, signature algorithms) and no fewer extensions besides GREASE, the second
-- is never classified as less like a browser's, whatever else they hold and whatever the digest is.
pub likely_launch_source_mono :
    (sha256 : Bytes → Bytes) (m n : ClientHelloMetadata)
    → known_client_from_ja4 (ja4 sha256 m).raw ≡ none
    → SignalsToo m n
    → likeness (likely_launch_source sha256 m) ≤ likeness (likely_launch_source sha256 n)
unfolding launch_of_known
likely_launch_source_mono sha256 m n new s =
    elim (Option-cases (known_client_from_ja4 (ja4 sha256 n).raw)) [
      | inl new' ↦ rw (likely-miss sha256 m new, likely-miss sha256 n new') (score_mono m n s)
      | inr (c, k) ↦
          rw (likely-hit sha256 n c k, known_client_from_ja4-chrome _ c k)
            (likeness_most (likely_launch_source sha256 m))
    ]
