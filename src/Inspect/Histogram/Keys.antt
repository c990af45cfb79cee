-- ===== src/Inspect/Histogram/Keys.antt =====
-- The keys of the map of hosts: their order, and that they ascend.
use aegiuw.Prelude.{
  Bool-cases, Bytes, ℕ, ◌≡◌, refl, inl, inr, true, false, List, [], ◌∷◌, map, arith,
}
use aegiuw.Sni.Types.{cleartext, encrypted, not_found, malformed}
use aegiuw.Sni.Extract.{eq_bytes}
use aegiuw.Inspect.Histogram.{
  OutcomeHistogram, empty_histogram, before, count_host, record_kind, record_host, record_outcome,
  record_decode_error, replay_lines,
}
use aegiuw.Inspect.Histogram.Lines.{
  Line, parsed, undecoded, ignored, record_line, record_lines, line_of, replay_lines-record_lines,
}

-- `P` of every entry of a list.
abbrev pub Every {ℓ} : {A : Type ℓ} → (A → Type 0) → List A → Type 0
Every P [] = Unit
Every P (x ∷ xs) = P x × Every P xs

-- `R` of every entry and each later one.
abbrev pub Pairwise {ℓ} : {A : Type ℓ} → (A → A → Type 0) → List A → Type 0
Pairwise R [] = Unit
Pairwise R (x ∷ xs) = Every (R x) xs × Pairwise R xs

pub Every-map {ℓ} :
    {A : Type ℓ} {P Q : A → Type 0} (f : (x : A) → P x → Q x) (xs : List A)
    → Every P xs
    → Every Q xs
Every-map f [] e = tt
Every-map f (x ∷ xs) (p, e) = (f x p, Every-map f xs e)

-- The keys ascend.
abbrev pub SortedKeys : List (Bytes × ℕ) → Type 0
SortedKeys entries = Pairwise (λ p q. before p.0 q.0 ≡ true) entries

pub before_irrefl : (s : Bytes) → before s s ≡ false
unfolding before
before_irrefl [] = refl
before_irrefl (a ∷ s) = ground (arith, before_irrefl s)

pub before_trans : (s t u : Bytes) → before s t ≡ true → before t u ≡ true → before s u ≡ true
unfolding before
before_trans s [] [] e f = absurd (cc)
before_trans [] t (c ∷ u) e f = refl
before_trans (a ∷ s) [] (c ∷ u) e f = absurd (cc)
before_trans s (b ∷ t) [] e f = absurd (cc)
before_trans (a ∷ s) (b ∷ t) (c ∷ u) e f = ground (arith, before_trans s t u)

-- Of two texts that differ one comes before the other.
pub before_total : (s t : Bytes) → eq_bytes s t ≡ false → before s t ≡ false → before t s ≡ true
unfolding before eq_bytes
before_total [] [] e f = absurd (cc)
before_total [] (b ∷ t) e f = absurd (cc)
before_total (a ∷ s) [] e f = refl
before_total (a ∷ s) (b ∷ t) e f = ground (arith, before_total s t)

-- A new host comes after what came before it and before all the keys.
Every-count_host :
    (k host : Bytes) (entries : List (Bytes × ℕ))
    → before k host ≡ true
    → Every (λ q. before k q.0 ≡ true) entries
    → Every (λ q. before k q.0 ≡ true) (count_host host entries)
unfolding count_host
Every-count_host k host [] b e = (b, tt)
Every-count_host k host ((l, n) ∷ entries) b (p, e) = elim (Bool-cases (eq_bytes host l)) [
  | inl y ↦ rw y (p, e)
  | inr z ↦ elim (Bool-cases (before host l)) [
    | inl y ↦ rw (z, y) (b, (p, e))
    | inr w ↦ rw (z, w) (p, Every-count_host k host entries b e)
  ]
]

count_host-SortedKeys :
    (host : Bytes) (entries : List (Bytes × ℕ))
    → SortedKeys entries
    → SortedKeys (count_host host entries)
unfolding count_host
count_host-SortedKeys host [] s = (tt, tt)
count_host-SortedKeys host ((k, n) ∷ entries) (e, s) = elim (Bool-cases (eq_bytes host k)) [
  | inl y ↦ rw y (e, s)
  | inr z ↦ elim (Bool-cases (before host k)) [
    | inl y ↦ rw (z, y) ((y, Every-map (λ q f. before_trans host k q.0 y f) entries e), (e, s))
    | inr w ↦
        rw (z, w)
          (
            Every-count_host k host entries (before_total host k z w) e,
            count_host-SortedKeys host entries s,
          )
  ]
]

pub record_line-SortedKeys :
    (h : OutcomeHistogram) (l : Line)
    → SortedKeys h.host_counts
    → SortedKeys (record_line h l).host_counts
unfolding record_line record_outcome record_kind record_host record_decode_error
record_line-SortedKeys h ignored s = s
record_line-SortedKeys h (parsed (cleartext host)) s = count_host-SortedKeys host h.host_counts s
record_line-SortedKeys h (parsed encrypted) s = s
record_line-SortedKeys h (parsed not_found) s = s
record_line-SortedKeys h (parsed malformed) s = s
record_line-SortedKeys h undecoded s = s

pub record_lines-SortedKeys :
    (ls : List Line) (h : OutcomeHistogram)
    → SortedKeys h.host_counts
    → SortedKeys (record_lines h ls).host_counts
unfolding record_lines
record_lines-SortedKeys [] h s = s
record_lines-SortedKeys (l ∷ ls) h s =
    record_lines-SortedKeys ls (record_line h l) (record_line-SortedKeys h l s)

pub replay_lines-SortedKeys :
    (texts : List Bytes) → SortedKeys (replay_lines empty_histogram texts).host_counts
replay_lines-SortedKeys texts =
    rw (replay_lines-record_lines texts empty_histogram)
      (record_lines-SortedKeys (map line_of texts) empty_histogram tt)
