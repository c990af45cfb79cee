-- ===== src/Sni/Lists/RoundTrip.antt =====
-- The lists of the extensions, written on the wire and read back.
use aegiuw.Prelude.{
  AllOk, ◌==◌, ==_iff, Bytes, length, is_empty, ℕ, ◌+◌, ◌*◌, ◌/◌, ◌%◌, ◌<◌, ◌≡◌, refl, ap, ◌∙◌,
  true, false, none, some, List, [], ◌∷◌, ◌++◌, map, arith,
}
use aegiuw.Cursor.{Cursor, new, read_u16, read_u16_prefixed}
use aegiuw.Cursor.Reading.{
  at, new-at, read_u16-at, read_u8_prefixed-at, read_u16_prefixed-at, read_u16_prefixed-last,
  read_u8_prefixed-last,
}
use aegiuw.Sni.Wire.{u16_bytes}
use aegiuw.Sni.Lists.{
  read_alpn_entry, parse_alpn_extension, read_u16_list, parse_u16_prefixed_u16_list,
  parse_supported_versions_extension, read_key_share_entry, parse_key_share_extension,
}
use aegiuw.Sni.Lists.Written.{Written, encode_all, read_all-encode_all}

-- The three kinds of items.
abbrev pub IsU16 : ℕ → Type 0
IsU16 n = n < 65536

read_u16-Written : Written read_u16 u16_bytes (λ n. n) IsU16
unfolding u16_bytes
read_u16-Written = record {
  not_empty = λ n h. omega arith;
  reads = λ n h pre rest.
      let num : n % 65536 / 256 * 256 + n % 256 ≡ n = omega arith in
      (
        pre ++ (n % 65536 / 256) ∷ (n % 256) ∷ [],
        read_u16-at pre rest (n % 65536 / 256) (n % 256) ∙ rw num refl,
      );
}

-- A protocol name: not empty, of 255 bytes at most.
abbrev pub IsProtocol : Bytes → Type 0
IsProtocol p = (is_empty p ≡ false) × (length p < 256)

abbrev pub protocol_bytes : Bytes → Bytes
protocol_bytes p = length p ∷ p

read_alpn_entry-Written : Written read_alpn_entry protocol_bytes (λ p. p) IsProtocol
unfolding read_alpn_entry
read_alpn_entry-Written = record {
  not_empty = λ p h. omega arith;
  reads = λ p h pre rest. (
    (pre ++ length p ∷ []) ++ p,
    rw (read_u8_prefixed-at pre rest (length p) p refl, read_alpn_entry) (rw h.0 refl),
  );
}

-- A key share: its group, and a key of up to 65535 bytes.
abbrev pub IsShare : ℕ × Bytes → Type 0
IsShare (group, key) = (group < 65536) × (length key < 65536)

abbrev pub share_bytes : ℕ × Bytes → Bytes
share_bytes (group, key) = u16_bytes group ++ (u16_bytes (length key) ++ key)

read_key_share_entry-Written :
    Written read_key_share_entry share_bytes (λ (group, _). group) IsShare
unfolding read_key_share_entry u16_bytes
read_key_share_entry-Written = record {
  not_empty = λ (group, key) h. omega arith;
  reads = λ (group, key) h pre rest.
      let g1 = group % 65536 / 256 in
      let g0 = group % 256 in
      let k1 = length key % 65536 / 256 in
      let k0 = length key % 256 in
      let num : g1 * 256 + g0 ≡ group = omega arith in
      let pre1 = pre ++ g1 ∷ g0 ∷ [] in
      (
        (pre1 ++ k1 ∷ k0 ∷ []) ++ key,
        rw
            (
              read_u16-at pre (k1 ∷ k0 ∷ (key ++ rest)) g1 g0,
              num,
              read_u16_prefixed-at pre1 rest k1 k0 key (omega arith),
            )
            refl,
      );
}

-- A list behind its own length, of two bytes.
abbrev pub u16_prefixed : Bytes → Bytes
u16_prefixed list = u16_bytes (length list) ++ list

map_id {ℓ} : {A : Type ℓ} (xs : List A) → map (λ x. x) xs ≡ xs
map_id [] = refl
map_id (x ∷ xs) = ap (◌∷◌ x) (map_id xs)

read_prefix :
    (list : Bytes)
    → length list < 65536
    → (c : Cursor) × (read_u16_prefixed (new (u16_prefixed list)) ≡ some (list, c))
unfolding u16_bytes
read_prefix list h =
    let n = length list in
    (
      at (([] ++ (n % 65536 / 256) ∷ (n % 256) ∷ []) ++ list) [],
      rw (new-at (u16_prefixed list))
          (read_u16_prefixed-last [] (n % 65536 / 256) (n % 256) list (omega arith)),
    )

-- Protocols of 1 to 255 bytes, of less than 65536 bytes on the wire together, are read back from an
-- ALPN extension in their order; so is an empty list of them.
pub parse_alpn_extension-encode :
    (ps : List Bytes)
    → AllOk IsProtocol ps
    → length (encode_all protocol_bytes ps) < 65536
    → parse_alpn_extension (u16_prefixed (encode_all protocol_bytes ps)) ≡ some ps
unfolding parse_alpn_extension
parse_alpn_extension-encode ps k h =
    let (c, e) = read_prefix (encode_all protocol_bytes ps) h in
    rw e (
      read_all-encode_all read_alpn_entry protocol_bytes (λ p. p) IsProtocol read_alpn_entry-Written
        ps k
      ∙ ap some (map_id ps))

-- Of key shares whose groups and key lengths fit in two bytes, of less than 65536 bytes on the wire
-- together, the groups are read back in their order, whatever the keys are.
pub parse_key_share_extension-encode :
    (ss : List (ℕ × Bytes))
    → AllOk IsShare ss
    → length (encode_all share_bytes ss) < 65536
    → parse_key_share_extension (u16_prefixed (encode_all share_bytes ss))
      ≡ some (map (λ (group, _). group) ss)
unfolding parse_key_share_extension
parse_key_share_extension-encode ss k h =
    let (c, e) = read_prefix (encode_all share_bytes ss) h in
    rw e (
      read_all-encode_all read_key_share_entry share_bytes (λ (group, _). group) IsShare
        read_key_share_entry-Written ss k)

pub length-u16s : (ns : List ℕ) → length (encode_all u16_bytes ns) ≡ 2 * length ns
unfolding u16_bytes
length-u16s [] = refl
length-u16s (n ∷ ns) = omega (arith, length-u16s ns)

read_u16_list-encode :
    (n : ℕ) (ns : List ℕ)
    → AllOk IsU16 (n ∷ ns)
    → read_u16_list (encode_all u16_bytes (n ∷ ns)) ≡ some (n ∷ ns)
unfolding read_u16_list
read_u16_list-encode n ns k =
    let even : (length (encode_all u16_bytes (n ∷ ns)) % 2 == 0) ≡ true =
      (==_iff _ 0).1 (omega (arith, length-u16s (n ∷ ns))) in
    rw even (
      unfold u16_bytes in
      read_all-encode_all read_u16 u16_bytes (λ n. n) IsU16 read_u16-Written (n ∷ ns) k
      ∙ ap some (map_id (n ∷ ns)))

-- A list of 1 to 32767 numbers below 65536 behind two bytes of length (the signature algorithms, the
-- groups) is read back in its order; an empty list is refused.
pub parse_u16_prefixed_u16_list-encode :
    (n : ℕ) (ns : List ℕ)
    → AllOk IsU16 (n ∷ ns)
    → length ns < 32767
    → (parse_u16_prefixed_u16_list (u16_prefixed (encode_all u16_bytes (n ∷ ns))) ≡ some (n ∷ ns))
      × (parse_u16_prefixed_u16_list (u16_prefixed []) ≡ none)
unfolding parse_u16_prefixed_u16_list
parse_u16_prefixed_u16_list-encode n ns k h =
    let list = encode_all u16_bytes (n ∷ ns) in
    let size = length-u16s (n ∷ ns) in
    (
      (let (c, e) = read_prefix list (omega arith) in rw e (read_u16_list-encode n ns k)),
      (let (c, e) = read_prefix [] (omega arith) in rw e refl),
    )

-- A list of 1 to 127 versions below 65536 behind one byte of length is read back in its order; an empty
-- list is refused.
pub parse_supported_versions_extension-encode :
    (n : ℕ) (ns : List ℕ)
    → AllOk IsU16 (n ∷ ns)
    → length ns < 127
    → (parse_supported_versions_extension
          (length (encode_all u16_bytes (n ∷ ns)) ∷ encode_all u16_bytes (n ∷ ns))
        ≡ some (n ∷ ns))
      × (parse_supported_versions_extension (0 ∷ []) ≡ none)
unfolding parse_supported_versions_extension
parse_supported_versions_extension-encode n ns k h =
    let list = encode_all u16_bytes (n ∷ ns) in
    let size = length-u16s (n ∷ ns) in
    (
      rw (new-at (length list ∷ list))
          (rw (read_u8_prefixed-last [] (length list) list refl) (read_u16_list-encode n ns k)),
      rw (new-at (0 ∷ [])) (rw (read_u8_prefixed-last [] 0 [] refl) refl),
    )
