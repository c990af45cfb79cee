-- ===== src/Sni/Lists.antt =====
-- crates/aegiuw-core/src/sni.rs: the extensions that hold a list or a number.
-- A list's own length is fuel enough, since every round reads a byte at least.
pub mod Written
pub mod RoundTrip
pub mod Ranges
use aegiuw.Prelude.{
  ◌==◌, if◌then◌else◌, within, Bytes, length, is_empty, bind, map_option, ℕ, suc, ◌%◌, not, ◌||◌,
  Option, none, some, List, [], ◌∷◌, ◌++◌,
}
use aegiuw.Cursor.{
  Cursor, Reader, ◌>>=◌, ◌>>◌, pure, guard, new, remaining, read_u8, read_u16, read_u8_prefixed,
  read_u16_prefixed,
}
use aegiuw.Cursor.Loop.{while_remaining}

-- `while entries.remaining() > 0 { out.push(item?) }` over a whole list.
unfoldable pub read_all {ℓ} : {A : Type ℓ} → Reader A → Bytes → Option (List A)
unfolding while_remaining
read_all item list =
    map_option (λ (out, _). out)
      (while_remaining (suc (length list)) 1 (λ out. do x ← item; pure (out ++ x ∷ [])) []
        (new list))

-- One `ProtocolName`, which must not be empty.
unfoldable pub read_alpn_entry : Reader Bytes
read_alpn_entry = do proto ← read_u8_prefixed; guard (not (is_empty proto)); pure proto

unfoldable pub parse_alpn_extension : Bytes → Option (List Bytes)
unfolding read_all read_alpn_entry
parse_alpn_extension ext =
    bind (read_u16_prefixed (new ext)) λ (list, _). read_all read_alpn_entry list

unfoldable pub parse_ec_point_formats_extension : Bytes → Option Bytes
parse_ec_point_formats_extension ext =
    bind (read_u8_prefixed (new ext)) λ (list, _). if is_empty list then none else some list

-- A list of numbers of two bytes, which must be one at least.
unfoldable pub read_u16_list : Bytes → Option (List ℕ)
unfolding read_all
read_u16_list list =
    if is_empty list || not (length list % 2 == 0) then none else read_all read_u16 list

unfoldable pub parse_u16_prefixed_u16_list : Bytes → Option (List ℕ)
unfolding read_u16_list
parse_u16_prefixed_u16_list ext = bind (read_u16_prefixed (new ext)) λ (list, _). read_u16_list list

unfoldable pub parse_supported_versions_extension : Bytes → Option (List ℕ)
unfolding read_u16_list
parse_supported_versions_extension ext =
    bind (read_u8_prefixed (new ext)) λ (list, _). read_u16_list list

unfoldable pub parse_record_size_limit_extension : Bytes → Option ℕ
parse_record_size_limit_extension ext = bind (read_u16 (new ext)) λ (limit, c).
    if not (remaining c == 0)
    then none
    else if not (within 64 16385 limit)
    then none
    else some limit

-- One `KeyShareEntry`: the group, with its key passed over.
unfoldable pub read_key_share_entry : Reader ℕ
read_key_share_entry = do group ← read_u16; key_exchange ← read_u16_prefixed; pure group

unfoldable pub parse_key_share_extension : Bytes → Option (List ℕ)
unfolding read_all read_key_share_entry
parse_key_share_extension ext =
    bind (read_u16_prefixed (new ext)) λ (list, _). read_all read_key_share_entry list
