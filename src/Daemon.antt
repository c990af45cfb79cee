-- ===== src/Daemon.antt =====
-- crates/aegiuw-daemon/src/main.rs: the decision pipeline and the builders of the demo's input. The
-- allow-cache is the source's slice; the printing of `main` is not modelled.
pub mod Safety
pub mod RoundTrip
pub mod Demo
pub mod Stream
use aegiuw.Prelude.{
  if◌then◌else◌, Bytes, length, replicate, any, Bool, false, Option, none, some, List, [], ◌∷◌,
  ◌++◌,
}
use aegiuw.Prelude.Text.{codes}
use aegiuw.Sni.Types.{SniOutcome, cleartext, encrypted, not_found, malformed}
use aegiuw.Sni.Wire.{u16_bytes, u24_bytes}
use aegiuw.Sni.Std.{eq_ignore_ascii_case}
use aegiuw.Sni.Extract.{extract_sni}
use aegiuw.Risk.{RiskSignal, not_in_safe_cache, Verdict, evaluate, safe_verdict, into_signals}
use aegiuw.Heuristics.Levenshtein.{check_typosquat, sample_brands, default_max_distance}
use aegiuw.Heuristics.Context.{assess_context}

abbrev pub allow_cache : List Bytes
allow_cache = codes "github.com" ∷ codes "www.example.com" ∷ []

unfoldable pub host_in_cache : Bytes → Bool
host_in_cache host = any (λ c. eq_ignore_ascii_case c host) allow_cache

-- `if let Some(sig) = o { signals.push(sig) }`.
abbrev pub push_option : Option RiskSignal → List RiskSignal → List RiskSignal
push_option none signals = signals
push_option (some sig) signals = signals ++ sig ∷ []

unfoldable pub assess_host : Bytes → Bytes → Verdict
assess_host host parent_process =
    if host_in_cache host
    then safe_verdict
    else evaluate (
        push_option (assess_context parent_process false) (
          push_option (check_typosquat host sample_brands default_max_distance)
            (not_in_safe_cache ∷ [])))

-- The arm for an outcome with no host.
unfoldable pub assess_hidden : SniOutcome → Bytes → Verdict
assess_hidden outcome parent_process =
    evaluate (push_option (assess_context parent_process false) (into_signals outcome))

unfoldable pub assess_outcome : SniOutcome → Bytes → Verdict
unfolding assess_host assess_hidden
assess_outcome (cleartext host) parent_process = assess_host host parent_process
assess_outcome encrypted parent_process = assess_hidden encrypted parent_process
assess_outcome not_found parent_process = assess_hidden not_found parent_process
assess_outcome malformed parent_process = assess_hidden malformed parent_process

unfoldable pub assess : Bytes → Bytes → SniOutcome × Verdict
unfolding assess_outcome
assess client_hello parent_process =
    let outcome = extract_sni client_hello in (outcome, assess_outcome outcome parent_process)

unfoldable pub hello_body : Bytes → Bytes
unfolding u16_bytes
hello_body extensions =
    0x03 ∷ 0x03 ∷ []
    ++ (replicate 32 0xaa
        ++ (0 ∷ 0x00 ∷ 0x02 ∷ 0x13 ∷ 0x01 ∷ 0x01 ∷ 0x00 ∷ []
            ++ (u16_bytes (length extensions) ++ extensions)))

unfoldable pub hello_handshake : Bytes → Bytes
unfolding hello_body u24_bytes
hello_handshake extensions =
    let body = hello_body extensions in 0x01 ∷ (u24_bytes (length body) ++ body)

unfoldable pub client_hello : Bytes → Bytes
unfolding hello_handshake u16_bytes
client_hello extensions =
    let handshake = hello_handshake extensions in
    0x16 ∷ 0x03 ∷ 0x01 ∷ (u16_bytes (length handshake) ++ handshake)

unfoldable pub sni_extension : Bytes → Bytes
unfolding u16_bytes
sni_extension host =
    let entry = 0x00 ∷ (u16_bytes (length host) ++ host) in
    let list = u16_bytes (length entry) ++ entry in
    u16_bytes 0x0000 ++ (u16_bytes (length list) ++ list)

unfoldable pub ech_then_decoy_sni : Bytes → Bytes
unfolding u16_bytes sni_extension
ech_then_decoy_sni decoy_host = u16_bytes 0xfe0d ++ (0x00 ∷ 0x00 ∷ [] ++ sni_extension decoy_host)
