-- ===== src/Sni/Offers/RoundTrip.antt =====
-- A hello written from what it offers, and its metadata.
use aegiuw.Prelude.{Bytes, length, AllOk, ◌≤◌, ◌≡◌, ◌∙◌, some, List, ◌++◌, map}
use aegiuw.Sni.Types.{max_handshake_bytes}
use aegiuw.Sni.Reassembly.Fragments.{records_of, joined, FitRecords}
use aegiuw.Sni.Handshake.{u16_chunks}
use aegiuw.Sni.Handshake.Scanning.{encode_extensions, FitU16}
use aegiuw.Sni.Handshake.Header.{IsHello, IsMessage}
use aegiuw.Sni.Handshake.Invariant.{Distinct, PskLast}
use aegiuw.Sni.Extract.{parse_client_hello_full}
use aegiuw.Sni.Extract.Records.{parse_client_hello_full-records_of}
use aegiuw.Sni.Offers.{Offer, type_of, on_wire, IsOffer}
use aegiuw.Sni.Offers.Told.{told, scan_list-told}

pub parse_client_hello_full-told :
    (os : List Offer) (sid cs comp : Bytes) (fs : List Bytes) (rest : Bytes)
    → AllOk IsOffer os
    → Distinct (map type_of os)
    → PskLast (map type_of os)
    → FitU16 (map on_wire os)
    → IsHello (encode_extensions (map on_wire os)) sid cs comp
    → IsMessage (encode_extensions (map on_wire os)) sid cs comp (joined fs)
    → length (joined fs) ≤ max_handshake_bytes
    → FitRecords fs
    → parse_client_hello_full (records_of fs ++ rest) ≡ some (told (u16_chunks cs) os)
parse_client_hello_full-told os sid cs comp fs rest k d p fit v e small fits =
    parse_client_hello_full-records_of (map on_wire os) sid cs comp fs rest fit v e small fits
    ∙ scan_list-told (u16_chunks cs) os k d p
