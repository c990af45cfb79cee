-- ===== src/Inspect/Replay/Bars.antt =====
-- The bars of the replay report.
use aegiuw.Prelude.{
  ◌==◌, if◌then◌else◌, Bytes, length, AllOk, ℕ, zero, suc, ◌+◌, ◌^◌, ◌≤◌, ◌<◌, ◌≡◌, ap, ◌∙◌, subst,
  Bool, false, List, [], ◌∷◌, map, arith,
}
use aegiuw.Sni.Types.{cleartext, encrypted, not_found, malformed}
use aegiuw.Inspect.Histogram.{OutcomeHistogram, empty_histogram, total_parsed, replay_lines}
use aegiuw.Inspect.Histogram.Lines.{
  Line, parsed, undecoded, ignored, line_of, is_cleartext, is_encrypted, is_not_found, is_malformed,
  is_undecoded, is_counted, count, count-le, length-map,
}
use aegiuw.Inspect.Histogram.Counts.{replay_lines-Counts}
use aegiuw.Inspect.Replay.{Floating, fraction, filled, bar_width}

-- What IEEE 754 says of the `f64` that come from whole numbers: every operation is correctly rounded, so
-- it keeps the order, and it is exact where the result is a small whole number.
pub record IsIeee (f : Floating) : Type 1 where
  pub le : f.F64 → f.F64 → Type 0
  pub as_f64_mono : (a b : ℕ) → a ≤ b → le (f.as_f64 a) (f.as_f64 b)
  pub divide_mono :
      (x y : f.F64) (n : ℕ)
      → 0 < n
      → le x y
      → le (f.divide x (f.as_f64 n)) (f.divide y (f.as_f64 n))
  pub divide_self : (n : ℕ) → 0 < n → f.divide (f.as_f64 n) (f.as_f64 n) ≡ f.as_f64 1
  pub times_mono :
      (x y : f.F64) (n : ℕ) → le x y → le (f.times x (f.as_f64 n)) (f.times y (f.as_f64 n))
  pub times_zero : (n : ℕ) → f.times (f.as_f64 0) (f.as_f64 n) ≡ f.as_f64 0
  pub times_one : (n : ℕ) → f.times (f.as_f64 1) (f.as_f64 n) ≡ f.as_f64 n
  pub rounded_mono : (x y : f.F64) → le x y → f.rounded x ≤ f.rounded y
  pub rounded_as_f64 : (n : ℕ) → n < 2 ^ 53 → f.rounded (f.as_f64 n) ≡ n

module _ (f : Floating) (laws : IsIeee f) where
  open laws use {
    as_f64_mono, divide_mono, divide_self, times_mono, times_zero, times_one, rounded_mono,
    rounded_as_f64,
  }

  filled_some :
      (a n width : ℕ)
      → filled f a (suc n) width
        ≡ f.rounded (f.times (f.divide (f.as_f64 a) (f.as_f64 (suc n))) (f.as_f64 width))
  unfolding filled fraction
  filled_some a n width =
      let e : (suc n == 0) ≡ false = ground arith in
      ap
        (λ (t : Bool). f.rounded (
          f.times (if t then f.as_f64 0 else f.divide (f.as_f64 a) (f.as_f64 (suc n)))
            (f.as_f64 width)))
        e

  filled_none : (a width : ℕ) → filled f a 0 width ≡ 0
  unfolding filled fraction
  filled_none a width = ap f.rounded (times_zero width) ∙ rounded_as_f64 0 (omega arith)

  filled_mono : (a b total width : ℕ) → a ≤ b → filled f a total width ≤ filled f b total width
  filled_mono a b zero width le = omega (arith, filled_none a width, filled_none b width)
  filled_mono a b (suc n) width le =
      rw (filled_some a n width, filled_some b n width)
        (rounded_mono _ _
          (times_mono _ _ width (divide_mono _ _ (suc n) (omega arith) (as_f64_mono a b le))))

  filled_all : (total width : ℕ) → 0 < total → width < 2 ^ 53 → filled f total total width ≡ width
  filled_all zero width pos small = absurd (omega arith)
  filled_all (suc n) width pos small =
      filled_some (suc n) n width
      ∙ ap (λ x. f.rounded (f.times x (f.as_f64 width))) (divide_self (suc n) pos)
      ∙ ap f.rounded (times_one width)
      ∙ rounded_as_f64 width small

  filled-le : (a total width : ℕ) → a ≤ total → width < 2 ^ 53 → filled f a total width ≤ width
  filled-le a zero width le small = omega (arith, filled_none a width)
  filled-le a (suc n) width le small =
      subst (λ w. filled f a (suc n) width ≤ w) (filled_all (suc n) width (omega arith) small)
        (filled_mono a (suc n) (suc n) width le)

-- Every line that is no comment is of one kind.
count_kinds :
    (ls : List Line)
    → count is_cleartext ls
        + count is_encrypted ls
        + count is_not_found ls
        + count is_malformed ls
        + count is_undecoded ls
      ≡ count is_counted ls
count_kinds [] = omega arith
count_kinds (ignored ∷ ls) = omega (arith, count_kinds ls)
count_kinds (undecoded ∷ ls) = omega (arith, count_kinds ls)
count_kinds (parsed (cleartext h) ∷ ls) = omega (arith, count_kinds ls)
count_kinds (parsed encrypted ∷ ls) = omega (arith, count_kinds ls)
count_kinds (parsed not_found ∷ ls) = omega (arith, count_kinds ls)
count_kinds (parsed malformed ∷ ls) = omega (arith, count_kinds ls)

-- The counters that the report draws.
abbrev pub drawn : OutcomeHistogram → List ℕ
drawn h = h.cleartext_lines ∷ h.encrypted_lines ∷ h.not_found_lines ∷ h.malformed_lines ∷ []

-- None is more than their sum, which does not overflow.
pub drawn-le :
    (texts : List Bytes)
    → length texts < 2 ^ 64
    → AllOk
        (λ n. n ≤ total_parsed (replay_lines empty_histogram texts))
        (drawn (replay_lines empty_histogram texts))
unfolding total_parsed
drawn-le texts b =
    let (c, _) = replay_lines-Counts texts b in
    let ls : List Line = map line_of texts in
    omega (arith, c, count_kinds ls, count-le is_counted ls, length-map texts)

AllOk-imp : (P Q : ℕ → Type 0) (xs : List ℕ) → ((a : ℕ) → P a → Q a) → AllOk P xs → AllOk Q xs
AllOk-imp P Q [] h k = tt
AllOk-imp P Q (x ∷ xs) h k = (h x k.0, AllOk-imp P Q xs h k.1)

-- The blocks that the report of a replay draws for a counter.
abbrev pub bar : Floating → List Bytes → ℕ → ℕ
bar f texts n = filled f n (total_parsed (replay_lines empty_histogram texts)) bar_width

-- Where `f64` is as IEEE 754 says, after fewer than 2^64 lines `bar` is 30 at most for the counters, does
-- not fall where the counter grows, and is 30 for all the parsed lines, unless there are none.
pub replay_lines-bar :
    (f : Floating) (laws : IsIeee f) (texts : List Bytes) (a b : ℕ)
    → length texts < 2 ^ 64
    → a ≤ b
    → AllOk (λ n. bar f texts n ≤ 30) (drawn (replay_lines empty_histogram texts))
      × (bar f texts a ≤ bar f texts b)
      × (bar f texts (total_parsed (replay_lines empty_histogram texts))
          ≡ (if total_parsed (replay_lines empty_histogram texts) == 0 then 0 else 30))
replay_lines-bar f laws texts a b bound le =
    let total = total_parsed (replay_lines empty_histogram texts) in
    (
      AllOk-imp _ (λ n. bar f texts n ≤ 30) (drawn (replay_lines empty_histogram texts))
          (λ n h. filled-le f laws n total bar_width h (omega arith)) (drawn-le texts bound),
      filled_mono f laws a b total bar_width le,
      whole total,
    )
  where
    whole : (total : ℕ) → filled f total total bar_width ≡ (if total == 0 then 0 else 30)
    whole zero = filled_none f laws 0 bar_width
    whole (suc n) =
        let e : (suc n == 0) ≡ false = ground arith in
        rw e (filled_all f laws (suc n) bar_width (omega arith) (omega arith))
