-- ===== src/Heuristics/Context.antt =====
-- crates/aegiuw-core/src/heuristics/context.rs. A text is the list of its `char`s.
pub mod Names
use aegiuw.Prelude.{
  ◌==◌, if◌then◌else◌, Bytes, any, Bool, true, false, ◌&&◌, ◌||◌, Option, none, some, List, [], ◌∷◌,
  map,
}
use aegiuw.Prelude.Text.{codes}
use aegiuw.Sni.Std.{to_ascii_lowercase}
use aegiuw.Risk.{RiskSignal, risky_launch_context}

pub data ParentCategory : Type 0 where
  email_client : ParentCategory
  document_reader : ParentCategory
  browser : ParentCategory
  other : ParentCategory

unfoldable pub is_elevated_risk : ParentCategory → Bool
is_elevated_risk email_client = true
is_elevated_risk document_reader = true
is_elevated_risk browser = false
is_elevated_risk other = false

abbrev pub email : List Bytes
email =
    codes "outlook"
    ∷ codes "thunderbird"
    ∷ codes "apple mail"
    ∷ codes "mailmate"
    ∷ codes "spark"
    ∷ []

abbrev pub docs : List Bytes
docs =
    codes "acrobat" ∷ codes "acrord32" ∷ codes "preview" ∷ codes "winword" ∷ codes "powerpnt" ∷ []

abbrev pub browsers : List Bytes
browsers =
    codes "chrome"
    ∷ codes "firefox"
    ∷ codes "safari"
    ∷ codes "msedge"
    ∷ codes "brave"
    ∷ codes "arc"
    ∷ []

unfoldable pub starts_with : Bytes → Bytes → Bool
starts_with s [] = true
starts_with [] (c ∷ p) = false
starts_with (b ∷ s) (c ∷ p) = b == c && starts_with s p

-- `str::contains`.
unfoldable pub has_substring : Bytes → Bytes → Bool
unfolding starts_with
has_substring [] p = starts_with [] p
has_substring (b ∷ s) p = starts_with (b ∷ s) p || has_substring s p

unfoldable pub hit : Bytes → List Bytes → Bool
unfolding has_substring
hit name table = any (has_substring name) table

unfoldable pub classify_parent : Bytes → ParentCategory
classify_parent process_name =
    let name = map to_ascii_lowercase process_name in
    if hit name email
    then email_client
    else if hit name docs
    then document_reader
    else if hit name browsers
    then browser
    else other

unfoldable pub assess_context : Bytes → Bool → Option RiskSignal
unfolding is_elevated_risk
assess_context parent_process in_safe_cache =
    if in_safe_cache
    then none
    else if is_elevated_risk (classify_parent parent_process)
    then some (risky_launch_context parent_process)
    else none
