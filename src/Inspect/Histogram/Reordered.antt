-- ===== src/Inspect/Histogram/Reordered.antt =====
-- A replay does not depend on the order of the lines.
use mathlib.Core.List.{Permᴰ, Perm}
use mathlib.Core.Logic.{∥∥₁_elim}
use aegiuw.Prelude.{
  Bool-cases, Bytes, ℕ, ◌≡◌, refl, sym, ap, ◌∙◌, ◌⊎◌, inl, inr, true, false, List, [], ◌∷◌, arith,
}
use aegiuw.Sni.Types.{cleartext}
use aegiuw.Sni.Extract.{eq_bytes}
use aegiuw.Sni.Extract.Hosts.{eq_bytes_iff}
use aegiuw.Inspect.Histogram.{
  OutcomeHistogram, before, count_host, bump, record_kind, record_host, record_outcome,
  record_decode_error, replay_line, replay_lines,
}
use aegiuw.Inspect.Histogram.Lines.{Line, parsed, record_line, line_of, replay_line-record_line}
use aegiuw.Inspect.Histogram.Keys.{before_irrefl, before_trans, before_total}

-- Two names are the same, or one comes before the other.
trichotomy : (x y : Bytes) → (x ≡ y) ⊎ ((before x y ≡ true) ⊎ (before y x ≡ true))
trichotomy x y = elim (Bool-cases (eq_bytes x y)) [
  | inl same ↦ inl ((eq_bytes_iff x y).0 same)
  | inr other ↦ elim (Bool-cases (before x y)) [
    | inl lt ↦ inr (inl lt)
    | inr ge ↦ inr (inr (before_total x y other ge))
  ]
]

before-ne : (x y : Bytes) → before x y ≡ true → (eq_bytes x y ≡ false) × (eq_bytes y x ≡ false)
before-ne x y b = (
  ground (arith, (eq_bytes_iff x y).0, before_irrefl x),
  ground (arith, (eq_bytes_iff y x).0, before_irrefl x),
)

before_asym : (x y : Bytes) → before x y ≡ true → before y x ≡ false
before_asym x y b = elim (Bool-cases (before y x)) [
  | inl y' ↦ absurd (ground (arith, before_trans x y x b y', before_irrefl x))
  | inr n ↦ n
]

count_host-same :
    (k : Bytes) (n : ℕ) (es : List (Bytes × ℕ)) → count_host k ((k, n) ∷ es) ≡ (k, bump n) ∷ es
unfolding count_host
count_host-same k n es = rw ((eq_bytes_iff k k).1 refl) refl

count_host-before :
    (x k : Bytes) (n : ℕ) (es : List (Bytes × ℕ))
    → before x k ≡ true
    → count_host x ((k, n) ∷ es) ≡ (x, bump 0) ∷ (k, n) ∷ es
unfolding count_host
count_host-before x k n es b = rw ((before-ne x k b).0, b) refl

count_host-after :
    (x k : Bytes) (n : ℕ) (es : List (Bytes × ℕ))
    → before k x ≡ true
    → count_host x ((k, n) ∷ es) ≡ (k, n) ∷ count_host x es
unfolding count_host
count_host-after x k n es b = rw ((before-ne k x b).1, before_asym k x b) refl

-- Both names come before the entry, or there is none.
comm_before :
    (x y k : Bytes) (n : ℕ) (es : List (Bytes × ℕ))
    → before x y ≡ true
    → before y k ≡ true
    → count_host x (count_host y ((k, n) ∷ es)) ≡ count_host y (count_host x ((k, n) ∷ es))
comm_before x y k n es xy yk =
    rw
      (
        count_host-before y k n es yk,
        count_host-before x k n es (before_trans x y k xy yk),
        count_host-before x y (bump 0) ((k, n) ∷ es) xy,
        count_host-after y x (bump 0) ((k, n) ∷ es) xy,
        count_host-before y k n es yk,
      )
      refl

comm_nil :
    (x y : Bytes)
    → before x y ≡ true
    → count_host x (count_host y []) ≡ count_host y (count_host x [])
unfolding count_host
comm_nil x y xy = count_host-before x y (bump 0) [] xy ∙ sym (count_host-after y x (bump 0) [] xy)

-- One name is that of the entry, or the entry stands between the two.
comm_same :
    (x k : Bytes) (n : ℕ) (es : List (Bytes × ℕ))
    → (before x k ≡ true) ⊎ (before k x ≡ true)
    → count_host x (count_host k ((k, n) ∷ es)) ≡ count_host k (count_host x ((k, n) ∷ es))
comm_same x k n es (inl xk) =
    rw
      (
        count_host-same k n es,
        count_host-before x k n es xk,
        count_host-before x k (bump n) es xk,
        count_host-after k x (bump 0) ((k, n) ∷ es) xk,
        count_host-same k n es,
      )
      refl
comm_same x k n es (inr kx) =
    rw
      (
        count_host-same k n es,
        count_host-after x k n es kx,
        count_host-after x k (bump n) es kx,
        count_host-same k n (count_host x es),
      )
      refl

comm_between :
    (x y k : Bytes) (n : ℕ) (es : List (Bytes × ℕ))
    → before x k ≡ true
    → before k y ≡ true
    → count_host x (count_host y ((k, n) ∷ es)) ≡ count_host y (count_host x ((k, n) ∷ es))
comm_between x y k n es xk ky =
    rw
      (
        count_host-after y k n es ky,
        count_host-before x k n es xk,
        count_host-before x k n (count_host y es) xk,
        count_host-after y x (bump 0) ((k, n) ∷ es) (before_trans x k y xk ky),
        count_host-after y k n es ky,
      )
      refl

comm_after :
    (x y k : Bytes) (n : ℕ) (es : List (Bytes × ℕ))
    → before k x ≡ true
    → before k y ≡ true
    → count_host x (count_host y es) ≡ count_host y (count_host x es)
    → count_host x (count_host y ((k, n) ∷ es)) ≡ count_host y (count_host x ((k, n) ∷ es))
comm_after x y k n es kx ky ih =
    rw
      (
        count_host-after y k n es ky,
        count_host-after x k n es kx,
        count_host-after x k n (count_host y es) kx,
        count_host-after y k n (count_host x es) ky,
      )
      (ap (λ r. (k, n) ∷ r) ih)

-- Two names are counted in either order, whatever the map holds.
count_host_comm :
    (x y : Bytes) (es : List (Bytes × ℕ))
    → count_host x (count_host y es) ≡ count_host y (count_host x es)
count_host_comm x y [] = elim (trichotomy x y) [
  | inl same ↦ rw same refl
  | inr (inl xy) ↦ comm_nil x y xy
  | inr (inr yx) ↦ sym (comm_nil y x yx)
]
count_host_comm x y ((k, n) ∷ es) =
    go (trichotomy x y) (trichotomy x k) (trichotomy y k) (count_host_comm x y es)
  where
    go :
        (x ≡ y) ⊎ ((before x y ≡ true) ⊎ (before y x ≡ true))
        → (x ≡ k) ⊎ ((before x k ≡ true) ⊎ (before k x ≡ true))
        → (y ≡ k) ⊎ ((before y k ≡ true) ⊎ (before k y ≡ true))
        → count_host x (count_host y es) ≡ count_host y (count_host x es)
        → count_host x (count_host y ((k, n) ∷ es)) ≡ count_host y (count_host x ((k, n) ∷ es))
    go (inl same) b c ih = rw same refl
    go a (inl same) (inl same') ih = rw (same, same') refl
    go a (inl same) (inr c) ih = rw same (sym (comm_same y k n es c))
    go a (inr b) (inl same) ih = rw same (comm_same x k n es b)
    go (inr (inl xy)) (inr (inl xk)) (inr (inl yk)) ih = comm_before x y k n es xy yk
    go (inr (inr yx)) (inr (inl xk)) (inr (inl yk)) ih = sym (comm_before y x k n es yx xk)
    go a (inr (inl xk)) (inr (inr ky)) ih = comm_between x y k n es xk ky
    go a (inr (inr kx)) (inr (inl yk)) ih = sym (comm_between y x k n es yk kx)
    go a (inr (inr kx)) (inr (inr ky)) ih = comm_after x y k n es kx ky ih

record_line_comm :
    (l m : Line) (h : OutcomeHistogram)
    → record_line (record_line h l) m ≡ record_line (record_line h m) l
unfolding record_line record_outcome record_kind record_host record_decode_error
record_line_comm (parsed (cleartext x)) (parsed (cleartext y)) h =
    ap (λ es. record h { cleartext_lines = bump (bump h.cleartext_lines); host_counts = es })
      (count_host_comm y x h.host_counts)
record_line_comm l m h = ground arith

replay_line_comm :
    (a b : Bytes) (h : OutcomeHistogram)
    → replay_line (replay_line h a) b ≡ replay_line (replay_line h b) a
replay_line_comm a b h =
    rw
      (
        replay_line-record_line (replay_line h a) b,
        replay_line-record_line h a,
        replay_line-record_line (replay_line h b) a,
        replay_line-record_line h b,
      )
      (record_line_comm (line_of a) (line_of b) h)

replay_lines-permuted :
    {xs ys : List Bytes}
    → Permᴰ xs ys
    → (h : OutcomeHistogram) → replay_lines h xs ≡ replay_lines h ys
unfolding replay_lines
replay_lines-permuted Permᴰ.nil h = refl
replay_lines-permuted (Permᴰ.cons {a} {b} {l₁} {l₂} e d) h =
    replay_lines-permuted d (replay_line h a) ∙ ap (λ x. replay_lines (replay_line h x) l₂) e
replay_lines-permuted (Permᴰ.swap {a} {b} {a'} {b'} {l} e f) h =
    rw (e, f) (ap (λ k. replay_lines k l) (replay_line_comm b' a' h))
replay_lines-permuted (Permᴰ.trans d e) h = replay_lines-permuted d h ∙ replay_lines-permuted e h

OutcomeHistogram-set : IsSet OutcomeHistogram
OutcomeHistogram-set = hlevel

-- The histogram of a replay is the same for the lines of a corpus in any order, its map of hosts
-- included, whatever was counted before and also where a counter overflows.
pub replay_lines-perm :
    (xs ys : List Bytes) (h : OutcomeHistogram) → Perm xs ys → replay_lines h xs ≡ replay_lines h ys
replay_lines-perm xs ys h p = ∥∥₁_elim p (OutcomeHistogram-set _ _) (λ d. replay_lines-permuted d h)
