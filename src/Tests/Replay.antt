-- ===== src/Tests/Replay.antt =====
-- The claims about the tools and the differential target: a corpus of four lines, the numbers of
-- type `f64` in thousandths, and another parser that takes one byte a time.
use mathlib.Core.List.{Permᴰ, Perm}
use native.Mathlib.Nat.{le-div_iff_mul-le, div-mul-le_self, mul-le-mul_right, mul-div_cancel_left}
use aegiuw.Prelude.{
  ◌==◌, if◌then◌else◌, Bytes, length, replicate, AllOk, ℕ, suc, ◌+◌, ◌*◌, ◌/◌, ◌^◌, ◌≤◌, ◌<◌, ◌≡◌,
  refl, ◌≢◌, ◌↔◌, ◌⊎◌, Option, none, some, List, [], ◌∷◌, arith,
}
use aegiuw.Prelude.Text.{codes}
use aegiuw.Sni.Extract.{extract_sni}
use aegiuw.Fuzz.{
  Accept, accepted, pending, Acceptor, Run, rustls_host, differential, Explains,
  differential-Explains,
}
use aegiuw.Sni.Extract.{parse_client_hello_full}
use aegiuw.Cursor.{read_u8, new, read_u16, read_slice, remaining}
use aegiuw.Sni.Reassembly.{
  reassemble_handshake, try_reassemble_single_record, reassemble_handshake_owned, reassemble_loop,
  read_record,
}
use aegiuw.Inspect.{decode_hex, decode_pair, hex_nibble, push_byte}
use aegiuw.Inspect.Histogram.{
  replay_line, record_decoded, record_outcome, record_kind, trim, empty_histogram, total_parsed,
  replay_lines,
}
use aegiuw.Inspect.Replay.{Floating, System, success, print_report, replay_main}
use aegiuw.Tests.{visit}
use aegiuw.Inspect.Printed.{Unicode}
use aegiuw.Inspect.Program.{inspect_main, Spells, inspect_main-sources}
use aegiuw.Inspect.Replay.Bars.{IsIeee}
use aegiuw.Inspect.Replay.Rows.{in_secret, no_hello, label_of, count_of, HasBar, print_report-bars}
use aegiuw.Inspect.Format.{unlines}
use aegiuw.Inspect.Replay.Corpora.{IsLine, replay_main-unlines}
use aegiuw.Inspect.Histogram.Reordered.{replay_lines-perm}

-- It takes one byte a time, and accepts a hello without a server name after the third.
abbrev take_one : ℕ → Bytes → Option (ℕ × ℕ)
take_one s [] = some (0, s)
take_one s (x ∷ xs) = some (1, suc s)

abbrev third : ℕ → Accept × ℕ
third s = (if s == 3 then accepted (some (codes "Example.com")) else pending, s)

take_one_le :
    (s : ℕ) (input : Bytes) (n s' : ℕ) → take_one s input ≡ some (n, s') → n ≤ length input
take_one_le s [] n s' e = ground arith
take_one_le s (x ∷ xs) n s' e = ground arith

abbrev by_bytes : Acceptor
by_bytes = record {
  State = ℕ;
  start = 0;
  read_tls = take_one;
  accept = third;
  read_tls_le = take_one_le;
}

differential-Explains_example :
    (r : Run) × (o : Option Bytes) × (rustls_host by_bytes visit ≡ some o)
    × (differential by_bytes visit ≡ some r)
    × Explains r (extract_sni visit) o
differential-Explains_example = differential-Explains by_bytes visit

div_mono : (x y k : ℕ) → 0 < k → x ≤ y → x / k ≤ y / k
div_mono x y k pos le = (le-div_iff_mul-le pos).1 (let whole = div-mul-le_self x k in omega arith)

-- The numbers as thousandths, rounded down.
abbrev thousandths : Floating
thousandths = record {
  F64 = ℕ;
  as_f64 = λ n. n * 1000;
  divide = λ x y. x * 1000 / y;
  times = λ x y. x * y / 1000;
  rounded = λ x. (x + 500) / 1000;
  one_decimal = λ x. [];
}

thousandths-IsIeee : IsIeee thousandths
thousandths-IsIeee = record {
  le = λ x y. x ≤ y;
  as_f64_mono = λ a b h. omega (arith, h);
  divide_mono =
      λ x y n pos h. div_mono (x * 1000) (y * 1000) (n * 1000) (omega arith) (omega arith);
  divide_self = λ n pos. mul-div_cancel_left 1000 (let p : 0 < n * 1000 = omega arith in p);
  times_mono = λ x y n h.
      div_mono (x * (n * 1000)) (y * (n * 1000)) 1000 (omega arith) (mul-le-mul_right (n * 1000) h);
  times_zero = λ n. omega arith;
  times_one = λ n. omega arith;
  rounded_mono = λ x y h. omega arith;
  rounded_as_f64 = λ n h. omega arith;
}

-- A blank line, a comment, a record of an alert and the first bytes of a hello.
abbrev lines : List Bytes
lines = [] ∷ codes "# corpus" ∷ codes "15 03 03 00 02 02 28" ∷ codes "16 03 01" ∷ []

lines-short : length lines < 2 ^ 64
lines-short = omega arith

lines-counts :
    count_of in_secret (replay_lines empty_histogram lines)
    ≤ count_of no_hello (replay_lines empty_histogram lines)
unfolding replay_lines replay_line record_decoded record_outcome record_kind trim decode_hex
    extract_sni parse_client_hello_full decode_pair hex_nibble push_byte reassemble_handshake
    try_reassemble_single_record read_u8 new read_u16 read_slice reassemble_handshake_owned
    reassemble_loop remaining read_record
lines-counts = omega arith

print_report-bars_example :
    let h = replay_lines empty_histogram lines in
    (k l : ℕ) × HasBar (label_of in_secret) (count_of in_secret h) k (print_report thousandths h)
    × HasBar (label_of no_hello) (count_of no_hello h) l (print_report thousandths h)
    × (k ≤ l)
    × (l ≤ 30)
    × ((count_of no_hello h < total_parsed h) ⊎ (l ≡ (if total_parsed h == 0 then 0 else 30)))
print_report-bars_example =
    print_report-bars thousandths thousandths-IsIeee lines in_secret no_hello lines-short
      lines-counts

abbrev path : Bytes
path = codes "corpus.txt"

abbrev files : System
files = record { stdin = none; read_file = λ name. some (unlines lines) }

path-no_help : path ≢ codes "-h"
path-no_help = λ e. cc e

lines-AllOk : AllOk IsLine lines
lines-AllOk = ((refl, refl), ((refl, refl), ((refl, refl), ((refl, refl), tt))))

replay_main-unlines_example :
    replay_main thousandths files (path ∷ [])
    ≡ success (print_report thousandths (replay_lines empty_histogram lines))
replay_main-unlines_example =
    replay_main-unlines thousandths files path lines path-no_help refl refl lines-AllOk

abbrev reordered : List Bytes
reordered = codes "# corpus" ∷ [] ∷ codes "15 03 03 00 02 02 28" ∷ codes "16 03 01" ∷ []

lines-Perm : Perm lines reordered
lines-Perm = ∣ Permᴰ.swap refl refl ∣₁

replay_lines-perm_example :
    replay_lines empty_histogram lines ≡ replay_lines empty_histogram reordered
replay_lines-perm_example = replay_lines-perm lines reordered empty_histogram lines-Perm

-- Texts as they are, and a digest of 32 bytes.
abbrev plain_texts : Unicode
plain_texts = record { debug_str = λ s. s; from_utf8_lossy = λ s. s }

abbrev digest : Bytes → Bytes
digest s = replicate 32 (length s)

abbrev start_of_hello : Bytes
start_of_hello = codes "16 03 01"

abbrev one_text : System
one_text = record { stdin = some start_of_hello; read_file = λ name. some start_of_hello }

inspect_main-sources_example :
    (inspect_main plain_texts digest digest one_text (codes "--stdin" ∷ [])
      ≡ inspect_main plain_texts digest digest one_text (start_of_hello ∷ []))
    × (inspect_main plain_texts digest digest one_text (codes "--file" ∷ path ∷ [])
        ≡ inspect_main plain_texts digest digest one_text (start_of_hello ∷ []))
    × (((inspect_main plain_texts digest digest one_text (start_of_hello ∷ [])).0 ≡ 0)
        ↔ Spells start_of_hello)
inspect_main-sources_example =
    inspect_main-sources plain_texts digest digest one_text start_of_hello path (λ e. cc e) refl
      refl refl
