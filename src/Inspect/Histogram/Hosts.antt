-- ===== src/Inspect/Histogram/Hosts.antt =====
-- The map of hosts after a replay counts the lines with each host.
use aegiuw.Prelude.{
  if◌then◌else◌, Bool-cases, Bytes, length, ℕ, ◌+◌, ◌^◌, ◌<◌, ◌≡◌, refl, sym, ap, inl, inr, Bool,
  true, false, List, [], ◌∷◌, map, arith,
}
use aegiuw.Sni.Types.{cleartext, encrypted, not_found, malformed}
use aegiuw.Sni.Extract.{eq_bytes}
use aegiuw.Sni.Extract.Hosts.{eq_bytes_iff}
use aegiuw.Inspect.Histogram.{
  OutcomeHistogram, empty_histogram, before, count_host, bump, record_kind, record_host,
  record_outcome, record_decode_error, replay_lines,
}
use aegiuw.Inspect.Histogram.Lines.{
  Line, parsed, undecoded, ignored, one, one-le, count, record_line, record_lines, line_of,
  length-map, replay_lines-record_lines,
}
use aegiuw.Inspect.Histogram.Keys.{
  Every, Every-map, SortedKeys, before_irrefl, before_trans, record_line-SortedKeys,
}

-- What the map holds for a host, zero where it has no entry.
unfoldable pub count_of : Bytes → List (Bytes × ℕ) → ℕ
count_of host [] = 0
count_of host ((k, n) ∷ entries) = if eq_bytes host k then n else count_of host entries

-- A line whose hello names the host.
abbrev pub names : Bytes → Line → Bool
names host (parsed (cleartext h)) = eq_bytes host h
names host _ = false

-- A host before all the keys has no entry.
count_of-absent :
    (host : Bytes) (entries : List (Bytes × ℕ))
    → Every (λ q. before host q.0 ≡ true) entries
    → count_of host entries ≡ 0
unfolding count_of
count_of-absent host [] e = refl
count_of-absent host ((k, n) ∷ entries) (b, e) = elim (Bool-cases (eq_bytes host k)) [
  | inl y ↦
      absurd
        (ground (arith, ap (λ s. before host s) ((eq_bytes_iff host k).0 y), before_irrefl host))
  | inr z ↦ rw z (count_of-absent host entries e)
]

eq_bytes-false : (s t : Bytes) → eq_bytes s t ≡ false → eq_bytes t s ≡ false
eq_bytes-false s t e = elim (Bool-cases (eq_bytes t s)) [
  | inl y ↦
      let same : eq_bytes s t ≡ true = (eq_bytes_iff s t).1 (sym ((eq_bytes_iff t s).0 y)) in
      absurd (ground (arith, same, e))
  | inr n ↦ n
]

-- A sum of a choice and of the one that counts it.
bumped :
    (c : Bool) (n r : ℕ)
    → (if c then n else r) + 1 < 2 ^ 64
    → (if c then bump n else r) ≡ (if c then n else r) + one c
bumped true n r b = omega arith
bumped false n r b = omega arith

count_of-new :
    (host other : Bytes) (entries : List (Bytes × ℕ))
    → Every (λ q. before host q.0 ≡ true) entries
    → (if eq_bytes other host then 1 else count_of other entries)
      ≡ count_of other entries + one (eq_bytes other host)
count_of-new host other entries e = elim (Bool-cases (eq_bytes other host)) [
  | inl y ↦
      let none_yet : count_of other entries ≡ 0 =
        rw ((eq_bytes_iff other host).0 y) (count_of-absent host entries e) in
      rw y (omega (arith, none_yet))
  | inr n ↦ rw n (omega arith)
]

-- Counting a host adds one to its count, and leaves the others.
count_of-count_host :
    (host other : Bytes) (entries : List (Bytes × ℕ))
    → SortedKeys entries
    → count_of other entries + 1 < 2 ^ 64
    → count_of other (count_host host entries) ≡ count_of other entries + one (eq_bytes other host)
unfolding count_of count_host
count_of-count_host host other [] s b = elim (Bool-cases (eq_bytes other host)) [
  | inl y ↦ rw y (omega arith)
  | inr n ↦ rw n (omega arith)
]
count_of-count_host host other ((k, n) ∷ entries) (e, s) b = elim (Bool-cases (eq_bytes host k)) [
  | inl y ↦
      rw (y, (eq_bytes_iff host k).0 y) (bumped (eq_bytes other k) n (count_of other entries) b)
  | inr z ↦ elim (Bool-cases (before host k)) [
    | inl y ↦
        rw (z, y)
          (count_of-new host other ((k, n) ∷ entries)
            (y, Every-map (λ q f. before_trans host k q.0 y f) entries e))
    | inr w ↦
        rw (z, w)
          (elim (Bool-cases (eq_bytes other k)) [
            | inl y ↦
                rw ((eq_bytes_iff other k).0 y, (eq_bytes_iff k k).1 refl, eq_bytes-false host k z)
                  (omega arith)
            | inr x ↦ rw x (count_of-count_host host other entries s (rw x at b))
          ])
  ]
]

record_line-count_of :
    (host : Bytes) (h : OutcomeHistogram) (l : Line)
    → SortedKeys h.host_counts
    → count_of host h.host_counts + 1 < 2 ^ 64
    → count_of host (record_line h l).host_counts ≡ count_of host h.host_counts + one (names host l)
unfolding record_line record_outcome record_kind record_host record_decode_error
record_line-count_of host h ignored s b = omega arith
record_line-count_of host h (parsed (cleartext x)) s b =
    count_of-count_host x host h.host_counts s b
record_line-count_of host h (parsed encrypted) s b = omega arith
record_line-count_of host h (parsed not_found) s b = omega arith
record_line-count_of host h (parsed malformed) s b = omega arith
record_line-count_of host h undecoded s b = omega arith

record_lines-count_of :
    (host : Bytes) (ls : List Line) (h : OutcomeHistogram)
    → SortedKeys h.host_counts
    → count_of host h.host_counts + length ls < 2 ^ 64
    → count_of host (record_lines h ls).host_counts
      ≡ count_of host h.host_counts + count (names host) ls
unfolding record_lines
record_lines-count_of host [] h s b = omega arith
record_lines-count_of host (l ∷ ls) h s b =
    let first = record_line-count_of host h l s (omega arith) in
    let rest =
      record_lines-count_of host ls (record_line h l) (record_line-SortedKeys h l s)
        (omega (arith, first, one-le (names host l))) in
    omega (arith, first, rest)

-- After fewer than 2^64 lines of a corpus the map of hosts holds for every name the number of the lines
-- whose hello has that name in the clear.
pub replay_lines-count_of :
    (texts : List Bytes) (host : Bytes)
    → length texts < 2 ^ 64
    → count_of host (replay_lines empty_histogram texts).host_counts
      ≡ count (names host) (map line_of texts)
unfolding count_of
replay_lines-count_of texts host b =
    let counted =
      record_lines-count_of host (map line_of texts) empty_histogram tt
        (omega (arith, length-map texts)) in
    rw (replay_lines-record_lines texts empty_histogram) (omega (arith, counted))
