-- ===== src/Inspect/Histogram.antt =====
-- crates/aegiuw-sni-inspect/src/lib.rs, `OutcomeHistogram`, whose counters are `u64`;
-- `SniOutcome::kind` of crates/aegiuw-core/src/sni.rs, by which they are told apart; and the loop of
-- crates/aegiuw-sni-inspect/src/bin/replay.rs that feeds them. A line is the list of its `char`s.
pub mod Lines
pub mod Counts
pub mod Keys
pub mod Hosts
pub mod Ranking
pub mod Reordered
use aegiuw.Prelude.{
  ltb, leb, ◌==◌, if◌then◌else◌, within, Bytes, take, is_empty, ℕ, ◌+◌, ◌%◌, ◌^◌, Bool, true, false,
  ◌&&◌, ◌||◌, List, [], ◌∷◌,
}
use aegiuw.Prelude.Text.{codes}
use aegiuw.Sni.Types.{SniOutcome, cleartext, encrypted, not_found, malformed}
use aegiuw.Sni.Extract.{eq_bytes, extract_sni}
use aegiuw.Inspect.{HexResult, ok, decode_hex}

pub record OutcomeHistogram : Type 0 where
  pub cleartext_lines : ℕ
  pub encrypted_lines : ℕ
  pub not_found_lines : ℕ
  pub malformed_lines : ℕ
  pub decode_errors : ℕ
  pub host_counts : List (Bytes × ℕ)

abbrev pub empty_histogram : OutcomeHistogram
empty_histogram = record {
  cleartext_lines = 0;
  encrypted_lines = 0;
  not_found_lines = 0;
  malformed_lines = 0;
  decode_errors = 0;
  host_counts = [];
}

unfoldable pub kind : SniOutcome → Bytes
kind (cleartext host) = codes "cleartext"
kind encrypted = codes "encrypted"
kind not_found = codes "not_found"
kind malformed = codes "malformed"

-- `+= 1` on a `u64`.
abbrev pub bump : ℕ → ℕ
bump n = (n + 1) % 2 ^ 64

-- An unknown kind is passed over.
unfoldable pub record_kind : OutcomeHistogram → Bytes → OutcomeHistogram
unfolding eq_bytes
record_kind h kind =
    if eq_bytes kind (codes "cleartext")
    then record h { cleartext_lines = bump h.cleartext_lines }
    else if eq_bytes kind (codes "encrypted")
    then record h { encrypted_lines = bump h.encrypted_lines }
    else if eq_bytes kind (codes "not_found")
    then record h { not_found_lines = bump h.not_found_lines }
    else if eq_bytes kind (codes "malformed")
    then record h { malformed_lines = bump h.malformed_lines }
    else h

-- The order of `str`.
unfoldable pub before : Bytes → Bytes → Bool
before [] [] = false
before [] (b ∷ t) = true
before (a ∷ s) [] = false
before (a ∷ s) (b ∷ t) = ltb a b || (a == b && before s t)

-- `*entry(host).or_insert(0) += 1` on a `BTreeMap`: the list of its entries, the keys ascending.
unfoldable pub count_host : Bytes → List (Bytes × ℕ) → List (Bytes × ℕ)
unfolding before eq_bytes
count_host host [] = (host, bump 0) ∷ []
count_host host ((k, n) ∷ entries) =
    let rest = count_host host entries in
    if eq_bytes host k
    then (k, bump n) ∷ entries
    else if before host k
    then (host, bump 0) ∷ (k, n) ∷ entries
    else (k, n) ∷ rest

unfoldable pub record_host : OutcomeHistogram → Bytes → OutcomeHistogram
unfolding count_host
record_host h host = record h { host_counts = count_host host h.host_counts }

unfoldable pub record_decode_error : OutcomeHistogram → OutcomeHistogram
record_decode_error h = record h { decode_errors = bump h.decode_errors }

unfoldable pub total_parsed : OutcomeHistogram → ℕ
total_parsed h =
    (h.cleartext_lines + h.encrypted_lines + h.not_found_lines + h.malformed_lines) % 2 ^ 64

unfoldable pub total_lines : OutcomeHistogram → ℕ
unfolding total_parsed
total_lines h = (total_parsed h + h.decode_errors) % 2 ^ 64

-- `sort_by_key(|p| Reverse(p.1))`, which is stable: an entry goes before the later ones that do not
-- count more.
unfoldable pub insert_by_count : Bytes × ℕ → List (Bytes × ℕ) → List (Bytes × ℕ)
insert_by_count p [] = p ∷ []
insert_by_count p (q ∷ qs) =
    let rest = insert_by_count p qs in if leb q.1 p.1 then p ∷ q ∷ qs else q ∷ rest

unfoldable pub sort_by_count : List (Bytes × ℕ) → List (Bytes × ℕ)
unfolding insert_by_count
sort_by_count [] = []
sort_by_count (p ∷ pairs) = insert_by_count p (sort_by_count pairs)

unfoldable pub top_hosts : OutcomeHistogram → ℕ → List (Bytes × ℕ)
unfolding sort_by_count
top_hosts h n = take n (sort_by_count h.host_counts)

-- `char::is_whitespace`.
abbrev pub is_whitespace : ℕ → Bool
is_whitespace c =
    within 0x09 0x0d c
    || c == 0x20
    || c == 0x85
    || c == 0xa0
    || c == 0x1680
    || within 0x2000 0x200a c
    || c == 0x2028
    || c == 0x2029
    || c == 0x202f
    || c == 0x205f
    || c == 0x3000

unfoldable pub trim_start : Bytes → Bytes
trim_start [] = []
trim_start (c ∷ s) = let rest = trim_start s in if is_whitespace c then rest else c ∷ s

unfoldable pub trim_end : Bytes → Bytes
trim_end [] = []
trim_end (c ∷ s) =
    let rest = trim_end s in if is_whitespace c && is_empty rest then [] else c ∷ rest

unfoldable pub trim : Bytes → Bytes
unfolding trim_start trim_end
trim line = trim_end (trim_start line)

-- `line.is_empty() || line.starts_with('#')`.
unfoldable pub is_passed_over : Bytes → Bool
is_passed_over [] = true
is_passed_over (c ∷ s) = c == b'#'

-- The kind of an outcome, and the host of one that has it.
unfoldable pub record_outcome : OutcomeHistogram → SniOutcome → OutcomeHistogram
unfolding record_kind record_host kind
record_outcome h (cleartext host) = record_host (record_kind h (kind (cleartext host))) host
record_outcome h outcome = record_kind h (kind outcome)

-- A panic of `decode_hex` would end the program; here it counts as an error.
unfoldable pub record_decoded : OutcomeHistogram → HexResult → OutcomeHistogram
unfolding record_outcome
record_decoded h (ok bytes) = record_outcome h (extract_sni bytes)
record_decoded h _ = record_decode_error h

-- A line of a corpus in `main` of the replay program.
unfoldable pub replay_line : OutcomeHistogram → Bytes → OutcomeHistogram
unfolding record_decoded trim is_passed_over
replay_line h line =
    let line = trim line in if is_passed_over line then h else record_decoded h (decode_hex line)

unfoldable pub replay_lines : OutcomeHistogram → List Bytes → OutcomeHistogram
replay_lines h [] = h
replay_lines h (line ∷ lines) = replay_lines (replay_line h line) lines
