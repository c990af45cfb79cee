-- ===== src/Risk.antt =====
-- crates/aegiuw-core/src/risk.rs: risk levels, signals and the verdict.
pub mod Policy
use aegiuw.Prelude.{
  ltb, ◌==◌, if◌then◌else◌, Bytes, unwrap_or, ℕ, Bool, Option, none, some, List, [], ◌∷◌, map,
}
use aegiuw.Sni.Types.{SniOutcome, cleartext, encrypted, not_found, malformed}

-- In ascending order of severity, which the derived `Ord` follows.
pub data RiskLevel : Type 0 where
  safe : RiskLevel
  unknown : RiskLevel
  suspicious : RiskLevel
  high_risk : RiskLevel

pub data RiskSignal : Type 0 where
  typosquat : Bytes → Bytes → ℕ → RiskSignal
  risky_launch_context : Bytes → RiskSignal
  not_in_safe_cache : RiskSignal
  encrypted_client_hello : RiskSignal
  no_server_name : RiskSignal
  malformed_client_hello : RiskSignal

-- The place of a level in the declaration, by which the derived `Ord` compares.
abbrev pub rank : RiskLevel → ℕ
rank safe = 0
rank unknown = 1
rank suspicious = 2
rank high_risk = 3

unfoldable pub severity : RiskSignal → RiskLevel
severity (typosquat domain looks_like distance) = suspicious
severity (risky_launch_context parent) = high_risk
severity not_in_safe_cache = unknown
severity encrypted_client_hello = unknown
severity no_server_name = unknown
severity malformed_client_hello = unknown

unfoldable pub into_signals : SniOutcome → List RiskSignal
into_signals (cleartext host) = []
into_signals encrypted = encrypted_client_hello ∷ []
into_signals not_found = no_server_name ∷ []
into_signals malformed = malformed_client_hello ∷ []

pub record Verdict : Type 0 where
  pub level : RiskLevel
  pub signals : List RiskSignal

-- `Ord::max`, which gives its second argument on a tie.
unfoldable pub max_level : RiskLevel → RiskLevel → RiskLevel
max_level a b = if ltb (rank b) (rank a) then a else b

-- `Iterator::max`: the greatest, `none` of nothing.
unfoldable pub max_from : RiskLevel → List RiskLevel → RiskLevel
unfolding max_level
max_from m [] = m
max_from m (l ∷ ls) = max_from (max_level m l) ls

unfoldable pub max_of : List RiskLevel → Option RiskLevel
unfolding max_from
max_of [] = none
max_of (l ∷ ls) = some (max_from l ls)

unfoldable pub evaluate : List RiskSignal → Verdict
evaluate signals = record {
  level = unwrap_or unknown (max_of (map severity signals));
  signals = signals;
}

abbrev pub safe_verdict : Verdict
safe_verdict = record { level = safe; signals = [] }

unfoldable pub allows_native_path : Verdict → Bool
allows_native_path v = rank v.level == rank safe
