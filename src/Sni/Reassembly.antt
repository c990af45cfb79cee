-- ===== src/Sni/Reassembly.antt =====
-- crates/aegiuw-core/src/sni.rs: from TLS records to one handshake message
-- (`reassemble_handshake`, `parse_record`, `try_reassemble_single_record`,
-- `reassemble_handshake_owned`) and `verify_handshake_type`.
pub mod Totals
pub mod FastPath
pub mod Bounds
pub mod Fragments
pub mod Stream
pub mod Costs
pub mod Octets
pub mod Splits
use aegiuw.Prelude.{
  ltb, leb, ◌==◌, if◌then◌else◌, within, Bytes, length, take, bind, map_option, ℕ, zero, suc, ◌+◌,
  ◌*◌, Bool, false, not, Option, none, some, [], ◌∷◌, ◌++◌,
}
use aegiuw.Cursor.{
  Cursor, Reader, ◌>>=◌, ◌>>◌, pure, guard, lift, new, remaining, read_u8, read_u16, read_slice,
}
use aegiuw.Sni.Types.{
  Cow, borrowed, owned, content_type_handshake, handshake_type_client_hello, max_handshake_bytes,
  max_record_fragment,
}

-- The bytes of a handshake message by its first four, header included, at most the maximum.
unfoldable pub handshake_total : Bytes → Option ℕ
handshake_total (t ∷ hi ∷ mi ∷ lo ∷ rest) =
    let total = 4 + (hi * 65536 + mi * 256 + lo) in
    if ltb max_handshake_bytes total then none else some total
handshake_total _ = none

-- The first record's fragment, if its length can hold a header.
read_single_fragment : Reader Bytes
read_single_fragment = do
  content_type ← read_u8
  guard (content_type == content_type_handshake)
  version ← read_u16
  fragment_len ← read_u16
  guard (within 4 max_record_fragment fragment_len)
  read_slice fragment_len

unfoldable pub try_reassemble_single_record : Bytes → Option Bytes
unfolding read_single_fragment
try_reassemble_single_record records = bind (read_single_fragment (new records)) λ (fragment, _).
    bind (handshake_total fragment)
      λ total. if leb total (length fragment) then some (take total fragment) else none

-- `handshake_buf` and `expected_total`.
pub record Buffer : Type 0 where
  pub bytes : Bytes
  pub expected_total : Option ℕ

abbrev pub empty_buffer : Buffer
empty_buffer = record { bytes = []; expected_total = none }

-- How a round of the loop ends.
pub data Round : Type 0 where
  more : Buffer → Round
  done : Bytes → Round

-- `expected_total` once there are four bytes.
unfoldable pub expect_total : Option ℕ → Bytes → Option (Option ℕ)
unfolding handshake_total
expect_total (some need) buf = some (some need)
expect_total none buf =
    if leb 4 (length buf) then map_option some (handshake_total buf) else some none

unfoldable pub complete : Bytes → Option ℕ → Round
complete buf none = more (record { bytes = buf; expected_total = none })
complete buf (some need) =
    if leb need (length buf)
    then done (take need buf)
    else more (record { bytes = buf; expected_total = some need })

-- What a round does with a fragment.
unfoldable pub accumulate : Buffer → Bytes → Option Round
accumulate b fragment =
    let buf = b.bytes ++ fragment in
    if ltb max_handshake_bytes (length buf)
    then none
    else map_option (complete buf) (expect_total b.expected_total buf)

-- A round: one record.
unfoldable pub read_record : Buffer → Reader Round
read_record b = do
  content_type ← read_u8
  guard (content_type == content_type_handshake)
  version ← read_u16
  fragment_len ← read_u16
  guard (leb fragment_len max_record_fragment)
  if fragment_len == 0
      then pure (more b)
      else (do fragment ← read_slice fragment_len; lift (accumulate b fragment))

unfoldable pub reassemble_loop : ℕ → Buffer → Cursor → Option Bytes
reassemble_loop zero b c = none
reassemble_loop (suc fuel) b c =
    let rest = bind (read_record b c) (λ (r, c'). elim r [
      | more b' ↦ reassemble_loop fuel b' c'
      | done handshake ↦ some handshake
    ]) in
    if ltb 0 (remaining c) then rest else none

-- A round reads at least five bytes, so the length of the input is fuel enough.
unfoldable pub reassemble_handshake_owned : Bytes → Option Bytes
reassemble_handshake_owned records =
    reassemble_loop (suc (length records)) empty_buffer (new records)

unfoldable pub parse_record_inner : Bytes → Option Cow
parse_record_inner records = elim (try_reassemble_single_record records) [
  | some handshake ↦ some (borrowed handshake)
  | none ↦ map_option owned (reassemble_handshake_owned records)
]

unfoldable pub reassemble_handshake : Bytes → Option Cow
unfolding parse_record_inner
reassemble_handshake = parse_record_inner

unfoldable pub parse_record : Bytes → Option Cow
unfolding parse_record_inner
parse_record = parse_record_inner

unfoldable pub verify_handshake_type : Bytes → Bool
verify_handshake_type [] = false
verify_handshake_type (first ∷ rest) =
    if not (first == handshake_type_client_hello) then false else elim (take 3 rest) [
      | hi ∷ mi ∷ lo ∷ _ ↦ leb (4 + (hi * 65536 + mi * 256 + lo)) max_handshake_bytes
      | _ ↦ false
    ]
