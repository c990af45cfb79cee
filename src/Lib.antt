-- ===== src/Lib.antt =====
-- Verification of aegiuw: the decision whether a connection may reach the network directly, from the
-- bytes of its TLS ClientHello and the process that opened it.
--
-- The program reads the server name off the ClientHello (crates/aegiuw-core/src/sni.rs), collects
-- signals of risk (crates/aegiuw-core/src/heuristics), folds them to a verdict
-- (crates/aegiuw-core/src/risk.rs), and the daemon composes these (crates/aegiuw-daemon/src/main.rs):
-- `assess` calls `extract_sni`, then the allow-cache, `check_typosquat` and `assess_context`, then
-- `Verdict::evaluate`. Beside the decision, crates/aegiuw-core/src/fingerprint.rs computes fingerprints
-- from the parsed hello and guesses the kind of client, and the tools of crates/aegiuw-sni-inspect
-- report all this for one hello, or tally the outcomes of many. A fuzz target compares the server name
-- with that of the library rustls.
--
-- The files and the code that they are about:
--   Prelude: the names that all files share; lists of native numbers, options, Boolean tests, texts.
--   Cursor: `Cursor` of sni.rs, a slice and a position, as a state-passing reader that returns `none`
--     for a refusal; `?` is its bind. Loop has the `while` loops, Reading what the readers do at a
--     given place, Ensures what they establish, Stable that bytes behind a slice change no success,
--     Octets that what is read off octets are octets.
--   Sni/Types: the constants, `SniOutcome`, `ClientHelloMetadata`, `ServerNameOutcome`. A `Cow` is
--     modelled by whether it is borrowed; borrowed text fields are their bytes.
--   Sni/Std: what sni.rs takes from the standard library (UTF-8, IP addresses, ASCII case).
--   Sni/Wire: the builders of wire bytes of the tests of sni.rs; Extensions has those of the extensions,
--     Clients the hellos of known clients. A slice that the source would panic at is `none`.
--   Sni/Reassembly: `reassemble_handshake`, `parse_record` and their two paths,
--     `verify_handshake_type`; Stream is about a connection whose bytes are still coming.
--   Sni/ServerName: `parse_server_name_extension`.
--   Sni/Lists: the parsers of the extensions that hold lists or a number.
--   Sni/Handshake: `parse_handshake_message_full`; the mutable `meta`, `sni_host` and `psk_seen` are
--     the record `Scan`, each arm of the `match` a case of `handle_extension`. Header says what a
--     message with given parts is, whatever its random is and whatever stands behind its extensions.
--   Sni/Extract: `parse_client_hello_full`, `extract_sni`, the message-level entry points,
--     `hrr_sni_consistent` and the host predicates; Preview has `malformed_hex_preview`, Trace the events
--     of `extract_sni`, Ranges (here, in Sni/Lists and in Sni/Handshake) the types of the metadata.
--   Sni/Offers: a hello by what it offers, an abstract description of the extensions that the scan reads,
--     how they are written and what the metadata say of them.
--   Sni/Metadata: `TlsVersion`, `AlpnProtocol`, `KeyShareGroup`, the methods that classify, the labels,
--     and the unstable extensions, which a feature turns on.
--   Fingerprint: crates/aegiuw-core/src/fingerprint.rs. Ja3 and Ja4 have the texts of the fingerprints,
--     Launch the tables of known clients and `likely_launch_source`, Ungreased what GREASE does to all
--     of them, OnWire the composition with the parser. A `String` that a loop writes to is passed
--     through its rounds; the score, an `i32`, is an integer of Launch, and stays between -2 and 12.
--   Risk: risk.rs. Heuristics/Levenshtein and Heuristics/Context: the two heuristics.
--   Daemon: the decision pipeline, the builders of the demo, and its rows; Stream is about the decision
--     on a connection whose bytes are still coming.
--   Inspect: `decode_hex` of crates/aegiuw-sni-inspect/src/lib.rs; Report is `main` of src/main.rs
--     of the same crate, from the text of the input to what it reports, Printed how it prints that,
--     and Program the whole of it, from its arguments to its exit code; Histogram is
--     `OutcomeHistogram` with its map of hosts, a list of entries whose keys ascend, and the loop of
--     src/bin/replay.rs over the lines of a corpus; Replay is that program from its arguments to its
--     report; Format has the padding and the `println!` of both.
--   Fuzz: crates/aegiuw-core/fuzz/fuzz_targets/differential_rustls.rs.
--   Tests: the properties at concrete inputs.
--
-- Bytes, `u16` values and lengths are native natural numbers; where the source narrows a number
-- (`as u16`, `as u8`) the remainder is written out, and where it adds with `checked_add` the sum is
-- bounded by a test that follows. A loop that reads a slice runs on fuel, one more than the bytes of the
-- slice, which each round reads at least one of. The levels and versions that the source compares by
-- a derived order are compared by their place in the declaration.
--
-- The digests of the crates `md5` and `sha2` are parameters of the fingerprints; the only thing asked of
-- one is, for the widths of JA4, that SHA-256 gives 32 bytes.
--
-- The numbers of type `f64` are a parameter of the replay report, of which the laws of correctly rounded
-- operations are asked; what the tools read from the system is one as well, and so are the two texts of
-- the inspect program that are made by the tables of Unicode. The acceptor of rustls is a parameter of
-- the fuzz target, of which is asked only that it takes no more bytes than there are.
--
-- Not modelled: serialisation, the texts of usage and of errors, the errors of reading a file, the layout
-- of the lines that the daemon prints; the other fuzz targets and the benches, which call one function
-- with generated input and drop its result; the test cases of sni.rs, which are runs of the modelled
-- functions at fixed inputs; and the TypeScript workers.
pub mod Prelude
pub mod Cursor
pub mod Sni
pub mod Risk
pub mod Heuristics
pub mod Daemon
pub mod Fingerprint
pub mod Inspect
pub mod Fuzz
mod Tests
