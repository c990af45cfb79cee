-- ===== src/Fingerprint/Launch.antt =====
-- crates/aegiuw-core/src/fingerprint.rs: the tables of known clients, `likely_launch_source`, and the
-- placeholder `ja4_h`.
pub mod Score
use aegiuw.Prelude.{
  leb, if◌then◌else◌, Bytes, length, is_some, ℕ, suc, ◌+◌, ◌-◌, Bool, true, false, Option, none,
  some, List, [], ◌∷◌,
}
use aegiuw.Prelude.Text.{codes}
use aegiuw.Sni.Types.{ClientHelloMetadata}
use aegiuw.Sni.Extract.{eq_bytes}
use aegiuw.Sni.Metadata.Alpn.{http2, http3, offers}
use aegiuw.Sni.Metadata.Groups.{has_post_quantum_key_share}
use aegiuw.Fingerprint.{without_grease}
use aegiuw.Fingerprint.Ja4.{ja4}

pub record Ja4HInput : Type 0 where
  pub method : Bytes
  pub version : Bytes
  pub has_cookie : Bool
  pub has_referer : Bool
  pub header_names : List Bytes
  pub accept_language : Bytes

pub record Ja4H : Type 0 where
  pub a : Bytes
  pub b : Bytes
  pub c : Bytes
  pub d : Bytes
  pub raw : Bytes
  pub implemented : Bool

-- It does not look at its input.
unfoldable pub ja4_h : Ja4HInput → Ja4H
ja4_h _ = record {
  a = codes "00000000";
  b = codes "000000000000";
  c = codes "000000000000";
  d = codes "000000000000";
  raw = codes "00000000_000000000000_000000000000_000000000000";
  implemented = false;
}

pub data KnownClient : Type 0 where
  chrome : KnownClient
  firefox : KnownClient
  safari : KnownClient
  curl : KnownClient
  go : KnownClient
  other : KnownClient

unfoldable pub client_kind : KnownClient → Bytes
client_kind chrome = codes "chrome"
client_kind firefox = codes "firefox"
client_kind safari = codes "safari"
client_kind curl = codes "curl"
client_kind go = codes "go"
client_kind other = codes "other"

abbrev pub known_ja3_fingerprints : List (Bytes × KnownClient)
known_ja3_fingerprints = []

abbrev pub known_ja4_fingerprints : List (Bytes × KnownClient)
known_ja4_fingerprints = (codes "t13d1516h2_8daaf6152771_b186095e22b6", chrome) ∷ []

-- `find` by the first part, and the second part of what it finds.
unfoldable pub find_known : Bytes → List (Bytes × KnownClient) → Option KnownClient
unfolding eq_bytes
find_known key [] = none
find_known key ((fp, c) ∷ table) = if eq_bytes fp key then some c else find_known key table

unfoldable pub known_client_from_ja3 : Bytes → Option KnownClient
unfolding find_known
known_client_from_ja3 ja3_md5 = find_known ja3_md5 known_ja3_fingerprints

unfoldable pub known_client_from_ja4 : Bytes → Option KnownClient
known_client_from_ja4 ja4_raw = find_known ja4_raw known_ja4_fingerprints

pub data LaunchSource : Type 0 where
  browser : LaunchSource
  cli : LaunchSource
  library : LaunchSource
  unknown : LaunchSource

unfoldable pub source_kind : LaunchSource → Bytes
source_kind browser = codes "browser"
source_kind cli = codes "cli"
source_kind library = codes "library"
source_kind unknown = codes "unknown"

-- The numbers of the score, an `i32`: `negsuc n` is `- 1 - n`. The score stays between - 2 and 12.
pub data ℤ : Type 0 where
  pos : ℕ → ℤ
  negsuc : ℕ → ℤ

-- `+=` and `-=` of a number that is not negative.
unfoldable pub plus : ℤ → ℕ → ℤ
plus (pos n) k = pos (n + k)
plus (negsuc n) k = if leb k n then negsuc (n - k) else pos (k - suc n)

unfoldable pub minus : ℤ → ℕ → ℤ
minus (pos n) k = if leb k n then pos (n - k) else negsuc (k - suc n)
minus (negsuc n) k = negsuc (n + k)

unfoldable pub at_least : ℕ → ℤ → Bool
at_least k (pos n) = leb k n
at_least k (negsuc n) = false

unfoldable pub is_negative : ℤ → Bool
is_negative (pos n) = false
is_negative (negsuc n) = true

-- `if signal { browser_score += points; }`.
unfoldable pub add_if : Bool → ℕ → ℤ → ℤ
unfolding plus
add_if signal points score = if signal then plus score points else score

unfoldable pub browser_score : ClientHelloMetadata → ℤ
unfolding minus
browser_score meta =
    let score = add_if meta.ech_present 3 (pos 0) in
    let score = add_if (has_post_quantum_key_share meta) 3 score in
    let score = add_if meta.compress_certificate_present 1 score in
    let score = add_if (offers meta http3) 2 score in
    let score = add_if (offers meta http2) 1 score in
    let score = add_if (is_some meta.signature_algorithms) 1 score in
    let ext_count = length (without_grease meta.extension_order) in
    let score = add_if (leb 12 ext_count) 1 score in
    if leb ext_count 5 then minus score 2 else score

unfoldable pub bucket : ℤ → LaunchSource
unfolding at_least is_negative
bucket score =
    if at_least 5 score
    then browser
    else if at_least 2 score
    then library
    else if is_negative score
    then cli
    else unknown

unfoldable pub launch_of_known : KnownClient → LaunchSource
launch_of_known chrome = browser
launch_of_known firefox = browser
launch_of_known safari = browser
launch_of_known curl = cli
launch_of_known go = library
launch_of_known other = unknown

unfoldable pub likely_launch_source : (Bytes → Bytes) → ClientHelloMetadata → LaunchSource
unfolding launch_of_known
likely_launch_source sha256 meta = elim (known_client_from_ja4 (ja4 sha256 meta).raw) [
  | some known ↦ launch_of_known known
  | none ↦ bucket (browser_score meta)
]
