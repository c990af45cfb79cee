-- ===== src/Sni/ServerName.antt =====
-- crates/aegiuw-core/src/sni.rs, `parse_server_name_extension`.
pub mod Labels
pub mod Valid
use aegiuw.Prelude.{
  ltb, ◌==◌, if◌then◌else◌, Bytes, length, is_empty, all, ℕ, ◌+◌, ◌-◌, Bool, true, not, ◌||◌, none,
  some, [], ◌∷◌,
}
use aegiuw.Cursor.{Cursor, new, remaining, read_u8, read_u16_prefixed}
use aegiuw.Sni.Std.{is_utf8, strip_dot, is_ip_addr, is_ascii_alphanumeric}
use aegiuw.Sni.Types.{ServerNameOutcome, host, skip, malformed, name_type_host_name}

abbrev pub max_hostname_len : ℕ
max_hostname_len = 253

abbrev pub max_label_len : ℕ
max_label_len = 63

-- The walk over the dots: the byte at hand is at `i`, the label began at `prev`.
unfoldable pub has_long_label : ℕ → ℕ → Bytes → Bool
has_long_label i prev [] = ltb max_label_len (i - prev)
has_long_label i prev (b ∷ s) =
    let at_dot = if ltb max_label_len (i - prev) then true else has_long_label (i + 1) (i + 1) s in
    let inside = has_long_label (i + 1) prev s in if b == b'.' then at_dot else inside

-- Letter, digit, hyphen or dot.
abbrev pub is_ldh : ℕ → Bool
is_ldh b = is_ascii_alphanumeric b || b == b'-' || b == b'.'

-- A second `host_name` behind the first is refused.
unfoldable pub after_host : Bytes → Cursor → ServerNameOutcome
after_host h entries = elim (read_u8 entries) [
  | none ↦ host h
  | some (next_type, _) ↦ if next_type == name_type_host_name then malformed else host h
]

-- The checks of the name once its trailing dot is gone.
unfoldable pub check_host : Bytes → Cursor → ServerNameOutcome
check_host h entries =
    if is_empty h
    then malformed
    else if ltb max_hostname_len (length h)
    then malformed
    else if has_long_label 0 0 h
    then malformed
    else if is_ip_addr h
    then malformed
    else if not (all is_ldh h)
    then malformed
    else after_host h entries

unfoldable pub parse_host_entry : Cursor → ServerNameOutcome
parse_host_entry entries = elim (read_u16_prefixed entries) [
  | none ↦ malformed
  | some (name, entries') ↦ if is_utf8 name then check_host (strip_dot name) entries' else skip
]

unfoldable pub parse_server_name_extension : Bytes → ServerNameOutcome
unfolding parse_host_entry
parse_server_name_extension ext = elim (read_u16_prefixed (new ext)) [
  | none ↦ malformed
  | some (list, _) ↦ if ltb (remaining (new list)) 3 then malformed else elim (read_u8 (new list)) [
    | none ↦ malformed
    | some (name_type, entries) ↦
        if name_type == name_type_host_name then parse_host_entry entries else skip
  ]
]
