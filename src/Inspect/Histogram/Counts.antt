-- ===== src/Inspect/Histogram/Counts.antt =====
-- What the counters hold after the lines of a replay.
use aegiuw.Prelude.{Bytes, length, ℕ, ◌+◌, ◌^◌, ◌<◌, ◌≡◌, List, [], ◌∷◌, map, arith}
use aegiuw.Sni.Types.{cleartext, encrypted, not_found, malformed}
use aegiuw.Inspect.Histogram.Lines.{
  Line, parsed, undecoded, ignored, record_line, record_lines, one, one-le, is_cleartext,
  is_encrypted, is_not_found, is_malformed, is_undecoded, is_counted, count, count-le, line_of,
  length-map, replay_lines-record_lines,
}
use aegiuw.Inspect.Histogram.{OutcomeHistogram, replay_lines, empty_histogram, total_lines}

-- Each counter of `t` is that of `h` and the lines of its kind.
abbrev pub Counts : OutcomeHistogram → OutcomeHistogram → List Line → Type 0
Counts h t ls =
    (t.cleartext_lines ≡ h.cleartext_lines + count is_cleartext ls)
    × (t.encrypted_lines ≡ h.encrypted_lines + count is_encrypted ls)
    × (t.not_found_lines ≡ h.not_found_lines + count is_not_found ls)
    × (t.malformed_lines ≡ h.malformed_lines + count is_malformed ls)
    × (t.decode_errors ≡ h.decode_errors + count is_undecoded ls)

sum_lines : OutcomeHistogram → ℕ
sum_lines h =
    h.cleartext_lines + h.encrypted_lines + h.not_found_lines + h.malformed_lines + h.decode_errors

-- One line, where no counter overflows.
record_line-Counts :
    (h : OutcomeHistogram) (l : Line)
    → sum_lines h + 1 < 2 ^ 64
    → Counts h (record_line h l) (l ∷ [])
      × (sum_lines (record_line h l) ≡ sum_lines h + one (is_counted l))
unfolding record_line sum_lines
record_line-Counts h ignored b = ground arith
record_line-Counts h (parsed (cleartext x)) b = ground arith
record_line-Counts h (parsed encrypted) b = ground arith
record_line-Counts h (parsed not_found) b = ground arith
record_line-Counts h (parsed malformed) b = ground arith
record_line-Counts h undecoded b = ground arith

Counts-cons :
    (h m t : OutcomeHistogram) (l : Line) (ls : List Line)
    → Counts h m (l ∷ [])
    → Counts m t ls
    → Counts h t (l ∷ ls)
Counts-cons h m t l ls a b = ground arith

record_lines-Counts :
    (ls : List Line) (h : OutcomeHistogram)
    → sum_lines h + length ls < 2 ^ 64
    → Counts h (record_lines h ls) ls
      × (sum_lines (record_lines h ls) ≡ sum_lines h + count is_counted ls)
unfolding record_lines
record_lines-Counts [] h b = ground arith
record_lines-Counts (l ∷ ls) h b =
    let (a, s) = record_line-Counts h l (omega arith) in
    let (c, t) =
      record_lines-Counts ls (record_line h l) (omega (arith, s, one-le (is_counted l))) in
    (
      Counts-cons h (record_line h l) (record_lines (record_line h l) ls) l ls a c,
      omega (arith, s, t),
    )

-- After fewer than 2^64 lines of a corpus every counter of a new histogram is the number of the lines
-- of its kind, undecodable ones included, and the total is the number of the lines that are neither
-- blank nor comments: no outcome is passed over, and nothing overflows.
pub replay_lines-Counts :
    (texts : List Bytes)
    → length texts < 2 ^ 64
    → Counts empty_histogram (replay_lines empty_histogram texts) (map line_of texts)
      × (total_lines (replay_lines empty_histogram texts) ≡ count is_counted (map line_of texts))
unfolding total_lines sum_lines
replay_lines-Counts texts b =
    let same = replay_lines-record_lines texts empty_histogram in
    let size = length-map texts in
    let (c, s) = record_lines-Counts (map line_of texts) empty_histogram (omega arith) in
    rw same (c, omega (arith, s, count-le is_counted (map line_of texts)))
