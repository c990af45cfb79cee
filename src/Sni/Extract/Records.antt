-- ===== src/Sni/Extract/Records.antt =====
-- The pipeline from records to the outcome, and back from the wire.
use aegiuw.Prelude.{
  ltb, Bytes, length, bind, map_option, ℕ, ◌+◌, ◌*◌, ◌/◌, ◌%◌, ◌≤◌, ◌≡◌, refl, sym, ap, ◌∙◌, subst,
  false, Option, none, some, List, [], ◌++◌, append-nil, arith,
}
use aegiuw.Sni.Types.{
  Cow, borrowed, owned, into_owned, ClientHelloMetadata, SniOutcome, malformed, max_handshake_bytes,
}
use aegiuw.Sni.Wire.{u24_bytes}
use aegiuw.Sni.Reassembly.{handshake_total, reassemble_handshake, reassemble_handshake_owned}
use aegiuw.Sni.Reassembly.Totals.{IsWhole}
use aegiuw.Sni.Reassembly.FastPath.{parse_record_inner-eq-owned}
use aegiuw.Sni.Reassembly.Fragments.{
  records_of, joined, FitRecords, reassemble_handshake_owned-records_of,
}
use aegiuw.Sni.Handshake.{
  Scan, parse_handshake_message_full, publish_host, u16_chunks, initial_scan, scan_extensions,
}
use aegiuw.Sni.Handshake.Scanning.{scan_list, encode_extensions, FitU16, scan_extensions-encode}
use aegiuw.Sni.Handshake.Header.{
  IsHello, IsMessage, hello_body, hello_message, parse_handshake_message_full-message,
}
use aegiuw.Sni.Extract.{promote, parse_client_hello_full, classify, extract_sni}

-- For all bytes the metadata, or their absence, are those of the message that the general loop
-- reassembles, whether the fast path was taken and the fields borrowed or not.
pub parse_client_hello_full-eq :
    (bytes : Bytes)
    → parse_client_hello_full bytes
      ≡ bind (reassemble_handshake_owned bytes) parse_handshake_message_full
unfolding parse_client_hello_full reassemble_handshake
parse_client_hello_full-eq bytes =
    rw (← parse_record_inner-eq-owned bytes) (go (reassemble_handshake bytes))
  where
    promoted : (o : Option ClientHelloMetadata) → map_option promote o ≡ o
    promoted none = refl
    promoted (some m) = refl

    go :
        (o : Option Cow)
        → elim o [
          | none ↦ none
          | some c ↦ elim c [
            | borrowed handshake ↦ parse_handshake_message_full handshake
            | owned handshake ↦ map_option promote (parse_handshake_message_full handshake)
          ]
        ]
          ≡ bind (map_option into_owned o) parse_handshake_message_full
    go none = refl
    go (some (borrowed h)) = refl
    go (some (owned h)) = promoted (parse_handshake_message_full h)

-- What the metadata come to, or their absence.
abbrev pub project : Option ClientHelloMetadata → SniOutcome
project none = malformed
project (some m) = classify m

pub extract_sni-project :
    (bytes : Bytes) → extract_sni bytes ≡ project (parse_client_hello_full bytes)
unfolding extract_sni
extract_sni-project bytes = refl

pub extract_sni-eq :
    (bytes : Bytes)
    → extract_sni bytes
      ≡ project (bind (reassemble_handshake_owned bytes) parse_handshake_message_full)
extract_sni-eq bytes = extract_sni-project bytes ∙ ap project (parse_client_hello_full-eq bytes)

-- What the scan of the extensions comes to.
abbrev pub outcome : Option Scan → SniOutcome
outcome none = malformed
outcome (some s) = classify (publish_host s)

hello_message-IsWhole :
    (random exts sid cs comp behind : Bytes)
    → length (hello_message random exts sid cs comp behind) ≤ max_handshake_bytes
    → IsWhole (hello_message random exts sid cs comp behind)
unfolding hello_message u24_bytes handshake_total
hello_message-IsWhole random exts sid cs comp behind le =
    let n = length (hello_body random exts sid cs comp behind) in
    let num : n / 65536 % 256 * 65536 + n / 256 % 256 * 256 + n % 256 ≡ n = omega arith in
    let cap : ltb max_handshake_bytes (4 + n) ≡ false = ground arith in
    rw (num, cap) (ap some (omega arith))

IsMessage-IsWhole :
    (exts sid cs comp msg : Bytes)
    → IsMessage exts sid cs comp msg
    → length msg ≤ max_handshake_bytes
    → IsWhole msg
IsMessage-IsWhole exts sid cs comp msg w le = subst IsWhole (sym w.written) (
    hello_message-IsWhole w.random exts sid cs comp w.behind
      (subst (λ m. length m ≤ max_handshake_bytes) w.written le))

-- A message with such extensions parses to what their fold gives.
pub parse_handshake_message_full-encode :
    (es : List (ℕ × Bytes)) (sid cs comp msg : Bytes)
    → FitU16 es
    → IsHello (encode_extensions es) sid cs comp
    → IsMessage (encode_extensions es) sid cs comp msg
    → parse_handshake_message_full msg
      ≡ map_option publish_host (scan_list (initial_scan (u16_chunks cs)) es)
parse_handshake_message_full-encode es sid cs comp msg fit v w =
    let start = initial_scan (u16_chunks cs) in
    let scan =
      subst (λ x. scan_extensions x start ≡ scan_list start es) (append-nil (encode_extensions es))
        (scan_extensions-encode es start [] fit (omega arith)) in
    parse_handshake_message_full-message (encode_extensions es) sid cs comp msg v w
    ∙ ap (map_option publish_host) scan

-- Such a hello parses to what the fold of its extensions gives.
pub parse_client_hello_full-records_of :
    (es : List (ℕ × Bytes)) (sid cs comp : Bytes) (fs : List Bytes) (rest : Bytes)
    → FitU16 es
    → IsHello (encode_extensions es) sid cs comp
    → IsMessage (encode_extensions es) sid cs comp (joined fs)
    → length (joined fs) ≤ max_handshake_bytes
    → FitRecords fs
    → parse_client_hello_full (records_of fs ++ rest)
      ≡ map_option publish_host (scan_list (initial_scan (u16_chunks cs)) es)
parse_client_hello_full-records_of es sid cs comp fs rest fit v e small fits =
    let whole = IsMessage-IsWhole (encode_extensions es) sid cs comp (joined fs) e small in
    rw
      (
        parse_client_hello_full-eq (records_of fs ++ rest),
        reassemble_handshake_owned-records_of fs rest fits whole,
        parse_handshake_message_full-encode es sid cs comp (joined fs) fit v e,
      )
      refl

-- A hello whose parts are those that the parser accepts, of 64 KiB at most, with extensions whose
-- types and lengths fit in two bytes, with any random and any bytes behind its extensions, cut into
-- fragments that fit in records in any way, with any bytes behind these: the outcome is that of the fold `scan_list` over the list of its extensions.
pub extract_sni-records_of :
    (es : List (ℕ × Bytes)) (sid cs comp : Bytes) (fs : List Bytes) (rest : Bytes)
    → FitU16 es
    → IsHello (encode_extensions es) sid cs comp
    → IsMessage (encode_extensions es) sid cs comp (joined fs)
    → length (joined fs) ≤ max_handshake_bytes
    → FitRecords fs
    → extract_sni (records_of fs ++ rest) ≡ outcome (scan_list (initial_scan (u16_chunks cs)) es)
extract_sni-records_of es sid cs comp fs rest fit v e small fits =
    extract_sni-project (records_of fs ++ rest)
    ∙ ap project (parse_client_hello_full-records_of es sid cs comp fs rest fit v e small fits)
    ∙ published (scan_list (initial_scan (u16_chunks cs)) es)
  where
    published : (o : Option Scan) → project (map_option publish_host o) ≡ outcome o
    published none = refl
    published (some s) = refl
