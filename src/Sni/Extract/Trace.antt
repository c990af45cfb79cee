-- ===== src/Sni/Extract/Trace.antt =====
-- crates/aegiuw-core/src/sni.rs, `extract_sni` with the events that it emits to `tracing`.
use aegiuw.Prelude.{
  if◌then◌else◌, Bytes, length, take, is_some, ℕ, ◌%◌, ◌^◌, ◌≡◌, refl, ap, ◌∙◌, Bool, true, false,
  not, ◌&&◌, Option, none, some, List, [], ◌∷◌, arith,
}
use aegiuw.Cursor.Octets.{AreOctets}
use aegiuw.Sni.Types.{ClientHelloMetadata, SniOutcome, malformed}
use aegiuw.Sni.Extract.{classify, extract_sni}
use aegiuw.Sni.Extract.Hosts.{hello_of, extract_sni-hello_of}
use aegiuw.Sni.Extract.Records.{project}
use aegiuw.Sni.Extract.Preview.{malformed_hex_preview, malformed_hex_preview-decode_hex}
use aegiuw.Inspect.{ok, decode_hex}
use aegiuw.Inspect.Histogram.{kind}

-- The features of the build.
pub record Features : Type 0 where
  pub std : Bool
  pub debug_malformed : Bool

-- `trace!`, whose duration only a build with `std` has, and `debug!`.
pub data Event : Type 0 where
  parsed : Bytes → ℕ → Option ℕ → Event
  malformed_input : Bytes → Event

unfoldable pub is_malformed : SniOutcome → Bool
is_malformed malformed = true
is_malformed _ = false

-- The outcome and the events in their order; `elapsed` is the time in microseconds, a `u128`.
unfoldable pub extract_sni_traced : Features → ℕ → Bytes → SniOutcome × List Event
unfolding extract_sni kind is_malformed malformed_hex_preview
extract_sni_traced features elapsed bytes =
    let outcome = extract_sni bytes in
    let duration = if features.std then some (elapsed % 2 ^ 64) else none in
    let dump =
      if features.debug_malformed && is_malformed outcome
      then malformed_input (malformed_hex_preview bytes) ∷ []
      else [] in
    (outcome, parsed (kind outcome) (length bytes) duration ∷ dump)

-- The dumps among the events.
abbrev pub dumps : List Event → List Bytes
dumps [] = []
dumps (parsed outcome byte_count duration ∷ events) = dumps events
dumps (malformed_input hex ∷ events) = hex ∷ dumps events

abbrev pub dumps_of : Features → ℕ → Bytes → List Bytes
dumps_of features elapsed bytes = dumps (extract_sni_traced features elapsed bytes).1

dumps-unless :
    (b : Bool) (hex : Bytes)
    → dumps (if b then malformed_input hex ∷ [] else []) ≡ (if b then hex ∷ [] else [])
dumps-unless true hex = refl
dumps-unless false hex = refl

-- An outcome is malformed exactly where there is no hello.
is_malformed-project : (o : Option ClientHelloMetadata) → is_malformed (project o) ≡ not (is_some o)
unfolding is_malformed classify
is_malformed-project none = refl
is_malformed-project (some m) = ground arith

dumps_of-eq :
    (features : Features) (elapsed : ℕ) (bytes : Bytes)
    → dumps_of features elapsed bytes ≡ (
        if features.debug_malformed && is_malformed (extract_sni bytes)
        then malformed_hex_preview bytes ∷ []
        else [])
unfolding extract_sni_traced
dumps_of-eq features elapsed bytes =
    dumps-unless (features.debug_malformed && is_malformed (extract_sni bytes))
      (malformed_hex_preview bytes)

-- A build with `debug-malformed` dumps the input exactly where it holds no hello that parses, once, and
-- a build without it never does; the dump, read as hex, is the first 64 bytes of the input. The outcome
-- is that of `extract_sni` in every build.
pub extract_sni_traced-dumps :
    (features : Features) (elapsed : ℕ) (bytes : Bytes)
    → AreOctets bytes
    → ((extract_sni_traced features elapsed bytes).0 ≡ extract_sni bytes)
      × (dumps_of features elapsed bytes ≡ (
          if features.debug_malformed && not (is_some (hello_of bytes))
          then malformed_hex_preview bytes ∷ []
          else []))
      × (decode_hex (malformed_hex_preview bytes) ≡ ok (take 64 bytes))
extract_sni_traced-dumps features elapsed bytes o =
    let said =
      ap is_malformed (extract_sni-hello_of bytes) ∙ is_malformed-project (hello_of bytes) in
    (
      unfold extract_sni_traced in refl,
      dumps_of-eq features elapsed bytes
          ∙ ap (λ b. if features.debug_malformed && b then malformed_hex_preview bytes ∷ [] else [])
              said,
      malformed_hex_preview-decode_hex bytes o,
    )
