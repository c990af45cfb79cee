-- ===== src/Sni/Extract/Ranges.antt =====
-- The types of what the program reads off a connection.
use aegiuw.Prelude.{Bytes, bind-eq-some, ◌≡◌, sym, ◌∙◌, some}
use aegiuw.Cursor.Octets.{AreOctets}
use aegiuw.Sni.Types.{ClientHelloMetadata}
use aegiuw.Sni.Reassembly.{reassemble_handshake_owned}
use aegiuw.Sni.Reassembly.Octets.{reassemble_handshake_owned-AreOctets}
use aegiuw.Sni.Handshake.Ranges.{HasTypes, parse_handshake_message_full-HasTypes}
use aegiuw.Sni.Extract.{parse_client_hello_full}
use aegiuw.Sni.Extract.Records.{parse_client_hello_full-eq}

-- From bytes that are octets every field of the metadata is a value of the type that it has in the
-- source: the host, the ALPN protocols and the point formats are of octets, the versions, groups, key
-- shares, signature algorithms, extension types and cipher suites are numbers of 16 bits, and the
-- record size limit lies between 64 and 16385.
pub parse_client_hello_full-HasTypes :
    (bytes : Bytes) (m : ClientHelloMetadata)
    → AreOctets bytes
    → parse_client_hello_full bytes ≡ some m
    → HasTypes m
parse_client_hello_full-HasTypes bytes m o e =
    let (h, p, q) =
      bind-eq-some (reassemble_handshake_owned bytes) _
        (sym (parse_client_hello_full-eq bytes) ∙ e) in
    parse_handshake_message_full-HasTypes h (reassemble_handshake_owned-AreOctets bytes o p) q
