-- ===== src/Fingerprint/Ja4.antt =====
-- crates/aegiuw-core/src/fingerprint.rs: `ja4`. The parameter `sha256` is `Sha256::digest`.
pub mod Order
pub mod Width
pub mod Version
use aegiuw.Prelude.{
  leb, ◌==◌, if◌then◌else◌, Bytes, length, take, is_empty, filter, is_some, unwrap_or, ℕ, min, max,
  Bool, true, false, not, ◌&&◌, Option, none, some, List, [], ◌∷◌, ◌++◌,
}
use aegiuw.Prelude.Text.{codes}
use aegiuw.Sni.Types.{ClientHelloMetadata, tls_legacy_version, ext_server_name, ext_alpn}
use aegiuw.Sni.Std.{is_ascii_alphanumeric}
use aegiuw.Fingerprint.{without_grease, decimal, two_digits, hex_lower}

pub record Ja4 : Type 0 where
  pub a : Bytes
  pub b : Bytes
  pub c : Bytes
  pub raw : Bytes

-- `Iterator::max` of numbers.
unfoldable pub greatest : List ℕ → Option ℕ
greatest [] = none
greatest (v ∷ vs) = elim (greatest vs) [ none ↦ some v | some w ↦ some (max v w) ]

-- `match highest`.
unfoldable pub version_str : ℕ → Bytes
version_str highest =
    if highest == 0x0304
    then codes "13"
    else if highest == 0x0303
    then codes "12"
    else if highest == 0x0302
    then codes "11"
    else if highest == 0x0301
    then codes "10"
    else if highest == 0x0300
    then codes "s3"
    else codes "00"

unfoldable pub ja4_tls_version_str : ClientHelloMetadata → Bytes
unfolding greatest
ja4_tls_version_str meta =
    let highest =
      unwrap_or tls_legacy_version
        (greatest (without_grease (unwrap_or [] meta.supported_versions))) in
    version_str highest

-- `find(u8::is_ascii_alphanumeric)`, and `rfind`, with the last one so far.
unfoldable pub find_alphanumeric : Bytes → Option ℕ
find_alphanumeric [] = none
find_alphanumeric (b ∷ s) = if is_ascii_alphanumeric b then some b else find_alphanumeric s

unfoldable pub rfind_alphanumeric : Option ℕ → Bytes → Option ℕ
rfind_alphanumeric last [] = last
rfind_alphanumeric last (b ∷ s) =
    rfind_alphanumeric (if is_ascii_alphanumeric b then some b else last) s

-- `match (first_char, last_char)`.
unfoldable pub alpn_chars : Option ℕ → Option ℕ → Bytes
alpn_chars (some f) (some l) = f ∷ l ∷ []
alpn_chars _ _ = codes "00"

unfoldable pub ja4_alpn_chars : ClientHelloMetadata → Bytes
unfolding find_alphanumeric rfind_alphanumeric alpn_chars
ja4_alpn_chars meta = elim (meta.alpn_protocols) [
  | none ↦ codes "00"
  | some protos ↦ elim protos [
    | [] ↦ codes "00"
    | first ∷ _ ↦ alpn_chars (find_alphanumeric first) (rfind_alphanumeric none first)
  ]
]

-- `.filter(…).count().min(99)` in two digits.
unfoldable pub ja4_count : List ℕ → Bytes
ja4_count values = two_digits (min (length (without_grease values)) 99)

unfoldable pub ja4_a : ClientHelloMetadata → Bytes
ja4_a meta =
    b't'
    ∷ (ja4_tls_version_str meta
        ++ ((if is_some meta.host then b'd' else b'n')
            ∷ (ja4_count meta.cipher_suites
                ++ (ja4_count meta.extension_order ++ ja4_alpn_chars meta))))

-- `sort_unstable` of numbers: the one ascending list of them.
unfoldable pub insert : ℕ → List ℕ → List ℕ
insert x [] = x ∷ []
insert x (y ∷ ys) = let rest = insert x ys in if leb x y then x ∷ y ∷ ys else y ∷ rest

unfoldable pub sort_unstable : List ℕ → List ℕ
unfolding insert
sort_unstable [] = []
sort_unstable (x ∷ xs) = insert x (sort_unstable xs)

-- The loop of `join_u16_decimal`, with `out` and `first`.
unfoldable pub join_u16s : ℕ → Bytes → Bool → List ℕ → Bytes
join_u16s sep out first [] = out
join_u16s sep out first (v ∷ values) =
    join_u16s sep ((if first then out else out ++ sep ∷ []) ++ decimal v) false values

unfoldable pub join_u16_decimal : List ℕ → ℕ → Bytes
unfolding join_u16s
join_u16_decimal values sep = join_u16s sep [] true values

unfoldable pub sha256_first_12_hex : (Bytes → Bytes) → Bytes → Bytes
sha256_first_12_hex sha256 input =
    if is_empty input then codes "000000000000" else hex_lower (take 6 (sha256 input))

unfoldable pub ja4_b : (Bytes → Bytes) → ClientHelloMetadata → Bytes
ja4_b sha256 meta =
    let ciphers = sort_unstable (without_grease meta.cipher_suites) in
    sha256_first_12_hex sha256 (join_u16_decimal ciphers b',')

-- The extensions that the `a` segment does not show already.
unfoldable pub hashed_extensions : List ℕ → List ℕ
hashed_extensions types =
    filter (λ v. not (v == ext_server_name) && not (v == ext_alpn)) (without_grease types)

-- What the signature algorithms add, in the order of the wire.
unfoldable pub sigalgs_suffix : Option (List ℕ) → Bytes
unfolding join_u16_decimal
sigalgs_suffix none = []
sigalgs_suffix (some sigs) =
    let filtered = without_grease sigs in
    if not (is_empty filtered) then b'_' ∷ join_u16_decimal filtered b',' else []

unfoldable pub ja4_c : (Bytes → Bytes) → ClientHelloMetadata → Bytes
ja4_c sha256 meta =
    let exts = sort_unstable (hashed_extensions meta.extension_order) in
    sha256_first_12_hex sha256
      (join_u16_decimal exts b',' ++ sigalgs_suffix meta.signature_algorithms)

unfoldable pub ja4 : (Bytes → Bytes) → ClientHelloMetadata → Ja4
ja4 sha256 meta =
    let a = ja4_a meta in
    let b = ja4_b sha256 meta in
    let c = ja4_c sha256 meta in record { a = a; b = b; c = c; raw = a ++ b'_' ∷ (b ++ b'_' ∷ c) }
