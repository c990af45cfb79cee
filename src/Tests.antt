-- ===== src/Tests.antt =====
-- A connection for the tests: the visit of the demo to a host, its message whole and in two fragments.
mod Reassembly
mod Hello
mod Names
mod Extensions
mod Decisions
mod Fingerprints
mod Offers
mod Replay
use aegiuw.Prelude.{
  Bytes, length, take, drop, ℕ, ◌≤◌, ◌≡◌, refl, sym, subst, some, List, [], ◌∷◌, ◌++◌, arith,
}
use aegiuw.Prelude.Text.{codes}
use aegiuw.Sni.Types.{host, tls_legacy_version, ext_server_name, max_handshake_bytes}
use aegiuw.Sni.Std.{
  strip_dot, split_dots, is_ip_addr, to_digit, read_digits, read_number, read_char, separator,
  octet, read_ipv4_addr, read_groups, read_ipv6_addr,
}
use aegiuw.Sni.Wire.{
  u16_bytes, u24_bytes, message_body, build_handshake_message_custom, build_extension,
  server_name_list,
}
use aegiuw.Sni.ServerName.{parse_server_name_extension}
use aegiuw.Sni.ServerName.Valid.{IsHostName, parse_server_name_extension-server_name_list}
use aegiuw.Sni.Reassembly.{handshake_total, reassemble_handshake_owned}
use aegiuw.Sni.Reassembly.Totals.{IsWhole}
use aegiuw.Sni.Reassembly.Fragments.{
  records_of, joined, FitRecords, reassemble_handshake_owned-records_of,
}
use aegiuw.Sni.Handshake.Scanning.{encode_extensions, FitU16}
use aegiuw.Sni.Handshake.Header.{IsHello, IsMessage, build-IsMessage}
use aegiuw.Sni.Metadata.Versions
use aegiuw.Daemon.{client_hello, sni_extension}

abbrev pub github : Bytes
github = codes "github.com"

-- The demo's visit to the host.
abbrev pub visit : Bytes
visit = client_hello (sni_extension github)

abbrev pub outlook : Bytes
outlook = codes "outlook.exe"

pub github-IsHostName : IsHostName github
unfolding split_dots is_ip_addr to_digit read_digits read_number read_char separator octet
    read_ipv4_addr read_groups read_ipv6_addr
github-IsHostName = record {
  ne_nil = λ e. cc e;
  short = omega arith;
  labels = (omega arith, (omega arith, tt));
  no_address = refl;
  ldh = refl;
}

abbrev pub suites : Bytes
suites = 0x13 ∷ 0x01 ∷ []

abbrev pub null : Bytes
null = 0 ∷ []

abbrev pub extensions : List (ℕ × Bytes)
extensions = (ext_server_name, server_name_list github) ∷ []

-- The message of the visit, and the same in two fragments.
abbrev pub message : Bytes
message =
    build_handshake_message_custom (encode_extensions extensions) tls_legacy_version [] suites null

abbrev pub fragments : List Bytes
fragments = take 30 message ∷ drop 30 message ∷ []

pub extensions-FitU16 : FitU16 extensions
unfolding server_name_list u16_bytes
extensions-FitU16 = (omega arith, omega arith, tt)

pub message-IsHello : IsHello (encode_extensions extensions) [] suites null
unfolding encode_extensions build_extension server_name_list u16_bytes
message-IsHello = record {
  session_short = omega arith;
  suites_ne_nil = refl;
  suites_even = refl;
  suites_short = omega arith;
  compression_short = omega arith;
  compression_null = refl;
  exts_short = omega arith;
}

pub fragments-FitRecords : FitRecords fragments
unfolding build_handshake_message_custom message_body u24_bytes u16_bytes encode_extensions
    build_extension server_name_list
fragments-FitRecords = (omega arith, (omega arith, tt))

pub joined-fragments : joined fragments ≡ message
unfolding build_handshake_message_custom message_body u24_bytes u16_bytes encode_extensions
    build_extension server_name_list
joined-fragments = refl

pub length-fragments : length (joined fragments) ≤ max_handshake_bytes
unfolding build_handshake_message_custom message_body u24_bytes u16_bytes encode_extensions
    build_extension server_name_list
length-fragments = omega arith

pub fragments-IsWhole : IsWhole (joined fragments)
unfolding handshake_total build_handshake_message_custom message_body u24_bytes u16_bytes
    encode_extensions build_extension server_name_list
fragments-IsWhole = refl

abbrev pub protocols : List Bytes
protocols = codes "h2" ∷ codes "http/1.1" ∷ []

pub fragments-reassembled :
    reassemble_handshake_owned (records_of fragments ++ 0x16 ∷ []) ≡ some (joined fragments)
fragments-reassembled =
    reassemble_handshake_owned-records_of fragments (0x16 ∷ []) fragments-FitRecords
      fragments-IsWhole

pub server_name-github : parse_server_name_extension (server_name_list github) ≡ host github
server_name-github =
    parse_server_name_extension-server_name_list github github-IsHostName (unfold strip_dot in refl)

pub message-IsMessage : IsMessage (encode_extensions extensions) [] suites null message
message-IsMessage = build-IsMessage (encode_extensions extensions) [] suites null

pub fragments-IsMessage : IsMessage (encode_extensions extensions) [] suites null (joined fragments)
fragments-IsMessage =
    subst (IsMessage (encode_extensions extensions) [] suites null) (sym joined-fragments)
      message-IsMessage
