-- ===== src/Tests/Extensions.antt =====
-- The claims about the lists of the extensions, their classification and the hex reader.
use mathlib.Core.List.{Perm}
use aegiuw.Prelude.{
  Bytes, length, ℕ, ◌*◌, ◌%◌, min, ◌≡◌, refl, ◌⊎◌, List, [], ◌∷◌, ◌++◌, map, arith,
}
use aegiuw.Prelude.Text.{codes}
use aegiuw.Inspect.{ok, odd_digits, hex_digits, decode_hex}
use aegiuw.Inspect.Histogram.{empty_histogram, replay_lines, top_hosts, total_lines}
use aegiuw.Inspect.Histogram.Keys.{Pairwise}
use aegiuw.Inspect.Histogram.Hosts.{count_of, names, replay_lines-count_of}
use aegiuw.Inspect.Histogram.Ranking.{Ahead, top_hosts-ranked}
use aegiuw.Inspect.Histogram.Lines.{count, is_counted, line_of}
use aegiuw.Inspect.Histogram.Counts.{Counts, replay_lines-Counts}
use aegiuw.Inspect.Hex.{AreBytes, encode_hex, decode_hex-encode_hex, decode_hex_total}
use aegiuw.Tests.{github, visit}

decode_hex-encode_hex_example : decode_hex (codes "16 03:ff") ≡ ok (0x16 ∷ 0x03 ∷ 0xff ∷ [])
decode_hex-encode_hex_example =
    decode_hex-encode_hex (codes "16 03:ff") (0x16 ∷ 0x03 ∷ 0xff ∷ [])
      (omega arith, (omega arith, (omega arith, tt))) (unfold hex_digits in refl)

decode_hex_total_example :
    ((length (hex_digits (codes "160")) % 2 ≡ 1)
      × (decode_hex (codes "160") ≡ odd_digits (length (hex_digits (codes "160")))))
    ⊎ ((bs : Bytes) × (decode_hex (codes "160") ≡ ok bs)
        × AreBytes bs
        × (2 * length bs ≡ length (hex_digits (codes "160"))))
decode_hex_total_example = decode_hex_total (codes "160")

-- A comment, a visit, one line that decodes to bytes that are no hello, and one that does not decode.
abbrev corpus : List Bytes
corpus = codes "# two" ∷ encode_hex visit ∷ codes " 16 03 " ∷ codes "160" ∷ []

replay_lines-Counts_example :
    Counts empty_histogram (replay_lines empty_histogram corpus) (map line_of corpus)
    × (total_lines (replay_lines empty_histogram corpus) ≡ count is_counted (map line_of corpus))
replay_lines-Counts_example = replay_lines-Counts corpus (omega arith)

replay_lines-count_of_example :
    count_of github (replay_lines empty_histogram corpus).host_counts
    ≡ count (names github) (map line_of corpus)
replay_lines-count_of_example = replay_lines-count_of corpus github (omega arith)

top_hosts-ranked_example :
    let h = replay_lines empty_histogram corpus in
    (rest : List (Bytes × ℕ)) × Perm h.host_counts (top_hosts h 10 ++ rest)
    × Pairwise Ahead (top_hosts h 10 ++ rest)
    × (length (top_hosts h 10) ≡ min 10 (length (top_hosts h 10 ++ rest)))
top_hosts-ranked_example = top_hosts-ranked corpus 10
