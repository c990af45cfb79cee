-- ===== src/Tests/Reassembly.antt =====
-- The claims about the reassembly of records, at the records of the visit.

use aegiuw.Prelude.{length, map_option, ◌≤◌, ◌≡◌, some, [], ◌∷◌, ◌++◌, arith}
use aegiuw.Cursor.{new, remaining}
use aegiuw.Sni.Types.{max_handshake_bytes, into_owned}
use aegiuw.Sni.Wire.{u16_bytes, u24_bytes}
use aegiuw.Sni.Reassembly.{
  parse_record_inner, reassemble_handshake_owned, reassemble_loop, empty_buffer,
}
use aegiuw.Sni.Reassembly.Totals.{IsWhole}
use aegiuw.Sni.Reassembly.FastPath.{parse_record_inner-eq-owned}
use aegiuw.Sni.Reassembly.Bounds.{reassemble_handshake_owned-IsWhole, reassemble_loop_fuel}
use aegiuw.Sni.Reassembly.Fragments.{records_of, joined, reassemble_handshake_owned-records_of}
use aegiuw.Daemon.{hello_body, hello_handshake, client_hello, sni_extension}
use aegiuw.Tests.{visit, fragments, fragments-FitRecords, fragments-IsWhole}

reassemble_handshake_owned-records_of_example :
    reassemble_handshake_owned (records_of fragments ++ 0x16 ∷ []) ≡ some (joined fragments)
reassemble_handshake_owned-records_of_example =
    reassemble_handshake_owned-records_of fragments (0x16 ∷ []) fragments-FitRecords
      fragments-IsWhole

parse_record_inner-eq-owned_example :
    map_option into_owned (parse_record_inner visit) ≡ reassemble_handshake_owned visit
parse_record_inner-eq-owned_example = parse_record_inner-eq-owned visit

reassemble_handshake_owned-IsWhole_example :
    IsWhole (joined fragments)
    × (4 ≤ length (joined fragments))
    × (length (joined fragments) ≤ max_handshake_bytes)
reassemble_handshake_owned-IsWhole_example =
    reassemble_handshake_owned-IsWhole (records_of fragments ++ 0x16 ∷ [])
      reassemble_handshake_owned-records_of_example

cursor-remaining : remaining (new visit) ≤ 200
unfolding remaining new client_hello sni_extension u16_bytes hello_handshake hello_body u24_bytes
cursor-remaining = omega arith

reassemble_loop_fuel_example :
    reassemble_loop 300 empty_buffer (new visit) ≡ reassemble_loop 400 empty_buffer (new visit)
reassemble_loop_fuel_example =
    reassemble_loop_fuel 300 400 empty_buffer (new visit) (omega (arith, cursor-remaining))
      (omega (arith, cursor-remaining))
