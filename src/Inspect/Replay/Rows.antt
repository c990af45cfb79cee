-- ===== src/Inspect/Replay/Rows.antt =====
-- The bars in what crates/aegiuw-sni-inspect/src/bin/replay.rs prints.
use aegiuw.Prelude.{
  ltb, ◌==◌, if◌then◌else◌, Bool-cases, Bytes, length, replicate, AllOk, ℕ, zero, suc, ◌+◌, ◌^◌,
  ◌≤◌, ◌<◌, ◌≡◌, ap, ◌∙◌, ◌⊎◌, inl, inr, List, [], ◌∷◌, ◌++◌, arith,
}
use aegiuw.Prelude.Text.{codes}
use aegiuw.Fingerprint.{decimal}
use aegiuw.Inspect.Format.{line_then, pad_left, pad_right, HasLine, HasLine-here, HasLine-later}
use aegiuw.Inspect.Histogram.{
  OutcomeHistogram, empty_histogram, total_parsed, total_lines, replay_lines,
}
use aegiuw.Inspect.Replay.{
  Floating, fraction, filled, print_row, print_rows, print_report, bar_width,
}
use aegiuw.Inspect.Replay.Bars.{IsIeee, drawn, drawn-le, bar, replay_lines-bar}

-- The blocks at the end of a line, after `n` of them.
blocks_after : ℕ → Bytes → ℕ
blocks_after n [] = n
blocks_after n (c ∷ s) = blocks_after (if c == 0x2588 then suc n else 0) s

-- The length of the bar at the end of a line.
unfoldable pub blocks : Bytes → ℕ
unfolding blocks_after
blocks = blocks_after 0

blocks_after-replicate : (n k : ℕ) → blocks_after n (replicate k 0x2588) ≡ n + k
unfolding blocks_after
blocks_after-replicate n zero = omega arith
blocks_after-replicate n (suc k) = omega (arith, blocks_after-replicate (suc n) k)

blocks_after-bar :
    (n : ℕ) (s : Bytes) (k : ℕ) → blocks_after n (s ++ b'%' ∷ b' ' ∷ b' ' ∷ replicate k 0x2588) ≡ k
unfolding blocks_after
blocks_after-bar n [] k = omega (arith, blocks_after-replicate 0 k)
blocks_after-bar n (c ∷ s) k = blocks_after-bar (if c == 0x2588 then suc n else 0) s k

-- The kinds of outcomes that the report has a row for.
pub data Kind : Type 0 where
  in_clear : Kind
  in_secret : Kind
  no_name : Kind
  no_hello : Kind

abbrev pub label_of : Kind → Bytes
label_of in_clear = codes "cleartext"
label_of in_secret = codes "encrypted"
label_of no_name = codes "not_found"
label_of no_hello = codes "malformed"

abbrev pub count_of : Kind → OutcomeHistogram → ℕ
count_of in_clear h = h.cleartext_lines
count_of in_secret h = h.encrypted_lines
count_of no_name h = h.not_found_lines
count_of no_hello h = h.malformed_lines

-- An output has a row for a label and a count, with a bar of `k` blocks.
abbrev pub HasBar : Bytes → ℕ → ℕ → Bytes → Type 0
HasBar label n k out =
    (share : Bytes) × HasLine
      (codes "  " ++ (pad_right 12 label ++ (pad_left 7 (decimal n) ++ share))) out
    × (blocks share ≡ k)

-- What stands behind the count.
abbrev share_of : Floating → ℕ → ℕ → Bytes
share_of f n total =
    codes "  "
    ++ (pad_left 5 (f.one_decimal (f.times (fraction f n total) (f.as_f64 100)))
        ++ (codes "%  " ++ replicate (filled f n total bar_width) 0x2588))

blocks-share_of :
    (f : Floating) (n total : ℕ) → blocks (share_of f n total) ≡ filled f n total bar_width
unfolding blocks
blocks-share_of f n total =
    blocks_after-bar 0 (pad_left 5 (f.one_decimal (f.times (fraction f n total) (f.as_f64 100))))
      (filled f n total bar_width)

print_row-HasBar :
    (f : Floating) (label : Bytes) (n total : ℕ) (out : Bytes)
    → HasBar label n
        (filled f n total bar_width)
        (line_then (print_row f label n total bar_width) out)
unfolding print_row
print_row-HasBar f label n total out = (
  share_of f n total,
  HasLine-here
      (codes "  " ++ (pad_right 12 label ++ (pad_left 7 (decimal n) ++ share_of f n total))) out,
  blocks-share_of f n total,
)

HasBar-later :
    (label : Bytes) (n k : ℕ) (first out : Bytes)
    → HasBar label n k out
    → HasBar label n k (line_then first out)
HasBar-later label n k first out (share, there, size) = (
  share,
  HasLine-later (codes "  " ++ (pad_right 12 label ++ (pad_left 7 (decimal n) ++ share))) first out
      there,
  size,
)

-- The row of a kind.
abbrev row : Floating → OutcomeHistogram → Kind → Bytes
row f h a = print_row f (label_of a) (count_of a h) (total_parsed h) bar_width

module _ (f : Floating) (h : OutcomeHistogram) (a : Kind) where
  -- The length of the bar of the kind.
  abbrev size : ℕ
  size = filled f (count_of a h) (total_parsed h) bar_width

  abbrev Drawn : Bytes → Type 0
  Drawn = HasBar (label_of a) (count_of a h) size

  row-Drawn : (out : Bytes) → Drawn (line_then (row f h a) out)
  row-Drawn = print_row-HasBar f (label_of a) (count_of a h) (total_parsed h)

  later : (first out : Bytes) → Drawn out → Drawn (line_then first out)
  later = HasBar-later (label_of a) (count_of a h) size

print_rows-Drawn :
    (f : Floating) (h : OutcomeHistogram) (out : Bytes) (a : Kind)
    → Drawn f h a (print_rows f h out)
unfolding print_rows
print_rows-Drawn f h out in_clear = row-Drawn f h in_clear _
print_rows-Drawn f h out in_secret =
    later f h in_secret (row f h in_clear) _ (row-Drawn f h in_secret _)
print_rows-Drawn f h out no_name =
    later f h no_name (row f h in_clear) _
      (later f h no_name (row f h in_secret) _ (row-Drawn f h no_name _))
print_rows-Drawn f h out no_hello = later f h no_hello (row f h in_clear) _ (
    later f h no_hello (row f h in_secret) _
      (later f h no_hello (row f h no_name) _ (row-Drawn f h no_hello _)))

print_report-Drawn :
    (f : Floating) (h : OutcomeHistogram) (a : Kind) → Drawn f h a (print_report f h)
unfolding print_report
print_report-Drawn f h a = later f h a (codes "== aegiuw-sni-replay ==") _ (
    later f h a
      (codes "input: "
        ++ (decimal (total_lines h)
            ++ (codes " lines ("
                ++ (decimal (total_parsed h)
                    ++ (codes " parsed, "
                        ++ (decimal h.decode_errors ++ codes " hex-decode errors)"))))))
      _
      (later f h a [] _
        (later f h a (codes "outcome histogram (of parsed):") _ (print_rows-Drawn f h _ a))))

below_or_equal : (n t : ℕ) → n ≤ t → (n < t) ⊎ (n ≡ t)
below_or_equal n t h = elim (Bool-cases (ltb n t)) [
  | inl y ↦ inl (ground arith)
  | inr z ↦ inr (ground arith)
]

-- The count of a kind is one of those that are drawn.
drawn-count_of :
    (P : ℕ → Type 0) (h : OutcomeHistogram) (a : Kind) → AllOk P (drawn h) → P (count_of a h)
drawn-count_of P h in_clear k = k.0
drawn-count_of P h in_secret k = k.1.0
drawn-count_of P h no_name k = k.1.1.0
drawn-count_of P h no_hello k = k.1.1.1.0

-- Where `f64` is as IEEE 754 says, the report on a corpus of fewer than 2^64 lines has for each kind of
-- outcome a row with its label, its count and a bar. No bar is longer than 30 blocks; of two kinds the
-- one with the smaller count never has the longer bar; and the bar of a kind that every parsed line is
-- of has 30 blocks, or none where no line was parsed.
pub print_report-bars :
    (f : Floating) (laws : IsIeee f) (texts : List Bytes) (a b : Kind)
    → length texts < 2 ^ 64
    → count_of a (replay_lines empty_histogram texts)
      ≤ count_of b (replay_lines empty_histogram texts)
    → let h = replay_lines empty_histogram texts in
      (k l : ℕ) × HasBar (label_of a) (count_of a h) k (print_report f h)
      × HasBar (label_of b) (count_of b h) l (print_report f h)
      × (k ≤ l)
      × (l ≤ 30)
      × ((count_of b h < total_parsed h) ⊎ (l ≡ (if total_parsed h == 0 then 0 else 30)))
print_report-bars f laws texts a b bound le =
    let h = replay_lines empty_histogram texts in
    let (short, longer, whole) =
      replay_lines-bar f laws texts (count_of a h) (count_of b h) bound le in
    let most = drawn-count_of (λ n. n ≤ total_parsed h) h b (drawn-le texts bound) in
    (
      bar f texts (count_of a h),
      bar f texts (count_of b h),
      print_report-Drawn f h a,
      print_report-Drawn f h b,
      longer,
      drawn-count_of (λ n. bar f texts n ≤ 30) h b short,
      elim (below_or_equal (count_of b h) (total_parsed h) most) [
        | inl below ↦ inl below
        | inr same ↦ inr (ap (bar f texts) same ∙ whole)
      ],
    )
