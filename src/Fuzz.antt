-- ===== src/Fuzz.antt =====
-- crates/aegiuw-core/fuzz/fuzz_targets/differential_rustls.rs: `extract_sni` against the TLS library
-- rustls. The library's `Acceptor` is a parameter: its state, `read_tls`, which says how many bytes it
-- took, and `accept`. The other targets call one function of the core and drop its result.
use aegiuw.Prelude.{
  ◌==◌, if◌then◌else◌, Bool-cases, Bytes, length, drop, length-drop, map_option, ℕ, zero, suc, ◌≤◌,
  ◌<◌, ◌≡◌, refl, ap, ◌∙◌, ◌≢◌, inl, inr, Bool, true, false, Option, none, some, map, arith,
}
use aegiuw.Sni.Types.{SniOutcome, cleartext, encrypted, not_found, malformed}
use aegiuw.Sni.Std.{to_ascii_lowercase}
use aegiuw.Sni.Extract.{eq_bytes, extract_sni}
use aegiuw.Sni.Extract.Hosts.{eq_bytes_iff}

-- `Result<Option<Accepted>, _>`: of a hello that is accepted only its server name is asked for.
pub data Accept : Type 0 where
  accepted : Option Bytes → Accept
  pending : Accept
  refused : Accept

-- `read_tls` reads from a slice, so it takes no more than the slice holds.
pub record Acceptor : Type 1 where
  pub State : Type 0
  pub start : State
  pub read_tls : State → Bytes → Option (ℕ × State)
  pub accept : State → Accept × State
  pub read_tls_le :
      (s : State) (input : Bytes) (n : ℕ) (s' : State)
      → read_tls s input ≡ some (n, s')
      → n ≤ length input

abbrev pub lower : Bytes → Bytes
lower = map to_ascii_lowercase

-- How a run of the target ends: `disagreed` is the failed assertion.
pub data Run : Type 0 where
  passed : Run
  disagreed : Bytes → Bytes → Run

unfoldable pub compare_hosts : Bytes → Option Bytes → Run
unfolding eq_bytes
compare_hosts ours none = passed
compare_hosts ours (some theirs) = if eq_bytes ours theirs then passed else disagreed ours theirs

-- ECH ends the run before the other parser is asked; no host of ours leaves nothing to compare.
unfoldable pub check_outcome : SniOutcome → Option (Option Bytes) → Option Run
unfolding compare_hosts
check_outcome (cleartext host) their_host = map_option (compare_hosts (lower host)) their_host
check_outcome encrypted their_host = some passed
check_outcome not_found their_host = map_option (λ _. passed) their_host
check_outcome malformed their_host = map_option (λ _. passed) their_host

module _ (a : Acceptor) where
  open a use {State, start, read_tls, accept, read_tls_le}

  -- The `while` loop of `rustls_host`; `none` means that the fuel ran out.
  unfoldable pub rustls_loop : ℕ → State → Bytes → Option (Option Bytes)
  rustls_loop zero s cursor = none
  rustls_loop (suc fuel) s cursor = elim (read_tls s cursor) [
    | none ↦ some none
    | some (n, s') ↦
        let (answer, s'') = accept s' in
        if n == 0 then some none else elim answer [
          | accepted name ↦ some (map_option lower name)
          | pending ↦ rustls_loop fuel s'' (drop n cursor)
          | refused ↦ some none
        ]
  ]

  unfoldable pub rustls_host : Bytes → Option (Option Bytes)
  unfolding rustls_loop
  rustls_host input = rustls_loop (suc (length input)) start input

  -- The target on an input.
  unfoldable pub differential : Bytes → Option Run
  unfolding rustls_host check_outcome
  differential input = check_outcome (extract_sni input) (rustls_host input)

  -- The loop ends by itself: every round takes a byte at least.
  rustls_loop_total :
      (fuel : ℕ) (s : State) (cursor : Bytes)
      → length cursor < fuel
      → (o : Option Bytes) × (rustls_loop fuel s cursor ≡ some o)
  unfolding rustls_loop
  rustls_loop_total zero s cursor h = absurd (omega arith)
  rustls_loop_total (suc fuel) s cursor h = go (rustls_loop_total fuel) (read_tls s cursor) refl
    where
      answered :
          (n : ℕ) (answer : Accept) (s'' : State)
          → ((s : State) (cursor : Bytes)
              → length cursor < fuel
              → (o : Option Bytes) × (rustls_loop fuel s cursor ≡ some o))
          → (t : Bool) → (n == 0) ≡ t
          → n ≤ length cursor
          → (o : Option Bytes) × ((if t then some none else elim answer [
            | accepted name ↦ some (map_option lower name)
            | pending ↦ rustls_loop fuel s'' (drop n cursor)
            | refused ↦ some none
          ])
              ≡ some o)
      answered n answer s'' ih true y le = (none, refl)
      answered n (accepted name) s'' ih false z le = (map_option lower name, refl)
      answered n refused s'' ih false z le = (none, refl)
      answered n pending s'' ih false z le =
          let size = length-drop n cursor in
          let pos : 0 < n = ground arith in ih s'' (drop n cursor) (omega arith)

      go :
          ((s : State) (cursor : Bytes)
            → length cursor < fuel
            → (o : Option Bytes) × (rustls_loop fuel s cursor ≡ some o))
          → (r : Option (ℕ × State)) → read_tls s cursor ≡ r
          → (o : Option Bytes) × (elim r [
            | none ↦ some none
            | some (n, s') ↦
                let (answer, s'') = accept s' in
                if n == 0 then some none else elim answer [
                  | accepted name ↦ some (map_option lower name)
                  | pending ↦ rustls_loop fuel s'' (drop n cursor)
                  | refused ↦ some none
                ]
          ]
              ≡ some o)
      go ih none e = (none, refl)
      go ih (some (n, s')) e =
          answered n (accept s').0 (accept s').1 ih (n == 0) refl (read_tls_le s cursor n s' e)

pub rustls_host_total :
    (a : Acceptor) (input : Bytes) → (o : Option Bytes) × (rustls_host a input ≡ some o)
unfolding rustls_host
rustls_host_total a input = rustls_loop_total a (suc (length input)) a.start input (omega arith)

-- The hosts of the two parsers are the same, where both read one.
abbrev pub Agree : SniOutcome → Option Bytes → Type 0
Agree (cleartext ours) (some theirs) = lower ours ≡ theirs
Agree _ _ = Unit

-- What the end of a run says of an outcome and of the host that the other parser read.
abbrev pub Explains : Run → SniOutcome → Option Bytes → Type 0
Explains passed outcome their_host = Agree outcome their_host
Explains (disagreed x theirs) outcome their_host =
    (ours : Bytes) × (outcome ≡ cleartext ours)
    × (x ≡ lower ours)
    × (their_host ≡ some theirs)
    × (x ≢ theirs)

different : (ours theirs : Bytes) → eq_bytes (lower ours) theirs ≡ false → lower ours ≢ theirs
different ours theirs other k = let same = (eq_bytes_iff (lower ours) theirs).1 k in absurd (cc)

compare_hosts-Explains :
    (ours : Bytes) (their_host : Option Bytes)
    → Explains (compare_hosts (lower ours) their_host) (cleartext ours) their_host
unfolding compare_hosts
compare_hosts-Explains ours none = tt
compare_hosts-Explains ours (some theirs) = elim (Bool-cases (eq_bytes (lower ours) theirs)) [
  | inl same ↦ rw same ((eq_bytes_iff (lower ours) theirs).0 same)
  | inr other ↦ rw other (ours, refl, refl, refl, different ours theirs other)
]

check_outcome-Explains :
    (outcome : SniOutcome) (their_host : Option Bytes)
    → (r : Run) × (check_outcome outcome (some their_host) ≡ some r) × Explains r outcome their_host
unfolding check_outcome
check_outcome-Explains (cleartext h) o =
    (compare_hosts (lower h) o, refl, compare_hosts-Explains h o)
check_outcome-Explains encrypted o = (passed, refl, tt)
check_outcome-Explains not_found o = (passed, refl, tt)
check_outcome-Explains malformed o = (passed, refl, tt)

-- On every input the differential target ends, whatever the other parser is, as long as it takes no
-- more bytes than there are. It passes only where no two different hosts were read, the case of letters
-- apart, and it fails only with the host that `extract_sni` shows in the clear, in lower case, and
-- another one that the other parser read.
pub differential-Explains :
    (a : Acceptor) (input : Bytes)
    → (r : Run) × (o : Option Bytes) × (rustls_host a input ≡ some o)
      × (differential a input ≡ some r)
      × Explains r (extract_sni input) o
unfolding differential
differential-Explains a input =
    let (o, p) = rustls_host_total a input in
    let (r, q, e) = check_outcome-Explains (extract_sni input) o in
    (r, o, p, ap (check_outcome (extract_sni input)) p ∙ q, e)
