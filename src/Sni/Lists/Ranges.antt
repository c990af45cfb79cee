-- ===== src/Sni/Lists/Ranges.antt =====
-- What the extensions that hold lists yield: values of the types that the source gives them.
use aegiuw.Prelude.{
  ◌==◌, if◌then◌else◌, within, Bytes, length, is_empty, AllOk, AreBelow, map_option, bind-eq-some,
  map_option-eq-some, unless-eq-some, ℕ, suc, ◌%◌, ◌≤◌, ◌<◌, ◌≡◌, refl, subst, Bool, true, false,
  not, ◌||◌, Option, none, some, some-injective, List, [], ◌∷◌, ◌++◌, arith,
}
use aegiuw.Cursor.{
  ◌>>=◌, Reader, pure, new, remaining, read_u16, read_u16_prefixed, read_u8_prefixed,
}
use aegiuw.Cursor.Octets.{
  AreOctets, AllOk-append, Reads, >>=-Reads, guard-Reads, pure-Reads, while_remaining-Reads,
  read_u16-Reads, read_u8_prefixed-Reads, read_u16_prefixed-Reads,
}
use aegiuw.Sni.Lists.{
  read_all, read_alpn_entry, parse_alpn_extension, parse_ec_point_formats_extension, read_u16_list,
  parse_u16_prefixed_u16_list, parse_supported_versions_extension,
  parse_record_size_limit_extension, read_key_share_entry, parse_key_share_extension,
}

-- A `Vec<u16>`.
abbrev pub AreWords : List ℕ → Type 0
AreWords = AreBelow 65536

-- What a result satisfies where there is one.
abbrev pub Yields {ℓ κ} : {A : Type ℓ} → (A → Type κ) → Option A → Type (ℓ ⊔ κ)
Yields {A} P o = (a : A) → o ≡ some a → P a

module _ {ℓ} {A : Type ℓ} (P : A → Type 0) where
  pub if-Yields :
      (t : Bool) (x y : Option A) → Yields P x → Yields P y → Yields P (if t then x else y)
  if-Yields true x y h k = h
  if-Yields false x y h k = k

  pub some-Yields : (a : A) → P a → Yields P (some a)
  some-Yields a p b e = subst P (some-injective _ _ e) p

  map_option-Yields {κ} :
      {B : Type κ} (f : B → A) (o : Option B)
      → ((b : B) → o ≡ some b → P (f b))
      → Yields P (map_option f o)
  map_option-Yields f none h a e = absurd (cc)
  map_option-Yields f (some b) h a e = some-Yields (f b) (h b refl) a e

  -- An arm of a `match` that stores what a parser yields.
  pub arm-Yields {κ} :
      {B : Type κ} (Q : B → Type 0) (t : Bool) (f : B → A) (o : Option B) (rest : Option A)
      → Yields Q o
      → ((b : B) → Q b → P (f b))
      → Yields P rest
      → Yields P (if t then map_option f o else rest)
  arm-Yields Q true f o rest h k r = map_option-Yields f o λ b e. k b (h b e)
  arm-Yields Q false f o rest h k r = r

  read_all-Yields :
      (item : Reader A) (list : Bytes)
      → Reads P item
      → AreOctets list
      → Yields (AllOk P) (read_all item list)
  unfolding read_all new
  read_all-Yields item list h o out e =
      let ((xs, c), p, q) = map_option-eq-some _ _ e in
      subst (AllOk P) q
        (while_remaining-Reads (AllOk P) 1 (λ out. do x ← item; pure (out ++ x ∷ []))
          (λ out k.
            >>=-Reads P (AllOk P) item _ h
              λ x px. pure-Reads (AllOk P) (out ++ x ∷ []) (AllOk-append P out (x ∷ []) k (px, tt)))
          (suc (length list)) [] tt (new list) xs c o p).1

read_alpn_entry-Reads : Reads AreOctets read_alpn_entry
unfolding read_alpn_entry
read_alpn_entry-Reads =
    >>=-Reads _ AreOctets read_u8_prefixed _ read_u8_prefixed-Reads
      λ proto k. guard-Reads AreOctets (not (is_empty proto)) _ λ _. pure-Reads AreOctets proto k.0

-- The list in a block with a length of one or two bytes.
u16_block :
    (ext : Bytes)
    → AreOctets ext
    → Yields (λ v. AreOctets v.0 × (length v.0 < 65536)) (read_u16_prefixed (new ext))
unfolding new
u16_block ext o (list, c) e = (read_u16_prefixed-Reads _ list c o e).1

u8_block :
    (ext : Bytes)
    → AreOctets ext
    → Yields (λ v. AreOctets v.0 × (length v.0 < 256)) (read_u8_prefixed (new ext))
unfolding new
u8_block ext o (list, c) e = (read_u8_prefixed-Reads _ list c o e).1

pub parse_alpn_extension-Yields :
    (ext : Bytes) → AreOctets ext → Yields (AllOk AreOctets) (parse_alpn_extension ext)
unfolding parse_alpn_extension
parse_alpn_extension-Yields ext o out e =
    let (v, p, q) = bind-eq-some (read_u16_prefixed (new ext)) _ e in
    read_all-Yields AreOctets read_alpn_entry v.0 read_alpn_entry-Reads (u16_block ext o v p).0 out
      q

pub parse_ec_point_formats_extension-Yields :
    (ext : Bytes) → AreOctets ext → Yields AreOctets (parse_ec_point_formats_extension ext)
unfolding parse_ec_point_formats_extension
parse_ec_point_formats_extension-Yields ext o out e =
    let (v, p, q) = bind-eq-some (read_u8_prefixed (new ext)) _ e in
    let (_, r) = unless-eq-some (is_empty v.0) _ q in
    subst AreOctets (some-injective _ _ r) (u8_block ext o v p).0

read_u16_list-Yields : (list : Bytes) → AreOctets list → Yields AreWords (read_u16_list list)
unfolding read_u16_list
read_u16_list-Yields list o out e =
    let (_, r) = unless-eq-some (is_empty list || not (length list % 2 == 0)) _ e in
    read_all-Yields (λ x. x < 65536) read_u16 list read_u16-Reads o out r

pub parse_u16_prefixed_u16_list-Yields :
    (ext : Bytes) → AreOctets ext → Yields AreWords (parse_u16_prefixed_u16_list ext)
unfolding parse_u16_prefixed_u16_list
parse_u16_prefixed_u16_list-Yields ext o out e =
    let (v, p, q) = bind-eq-some (read_u16_prefixed (new ext)) _ e in
    read_u16_list-Yields v.0 (u16_block ext o v p).0 out q

pub parse_supported_versions_extension-Yields :
    (ext : Bytes) → AreOctets ext → Yields AreWords (parse_supported_versions_extension ext)
unfolding parse_supported_versions_extension
parse_supported_versions_extension-Yields ext o out e =
    let (v, p, q) = bind-eq-some (read_u8_prefixed (new ext)) _ e in
    read_u16_list-Yields v.0 (u8_block ext o v p).0 out q

-- The limit is one that RFC 8449 allows.
pub parse_record_size_limit_extension-Yields :
    (ext : Bytes) → Yields (λ n. (64 ≤ n) × (n ≤ 16385)) (parse_record_size_limit_extension ext)
unfolding parse_record_size_limit_extension
parse_record_size_limit_extension-Yields ext out e =
    let ((limit, c), p, q) = bind-eq-some (read_u16 (new ext)) _ e in
    let (_, r) = unless-eq-some (not (remaining c == 0)) _ q in
    let (fits, s) = unless-eq-some (not (within 64 16385 limit)) _ r in
    subst (λ n. (64 ≤ n) × (n ≤ 16385)) (some-injective _ _ s) (ground arith)

read_key_share_entry-Reads : Reads (λ x. x < 65536) read_key_share_entry
unfolding read_key_share_entry
read_key_share_entry-Reads =
    >>=-Reads _ (λ x. x < 65536) read_u16 _ read_u16-Reads
      λ group k.
        >>=-Reads _ (λ x. x < 65536) read_u16_prefixed _ read_u16_prefixed-Reads
          λ key_exchange _. pure-Reads (λ x. x < 65536) group k

pub parse_key_share_extension-Yields :
    (ext : Bytes) → AreOctets ext → Yields AreWords (parse_key_share_extension ext)
unfolding parse_key_share_extension
parse_key_share_extension-Yields ext o out e =
    let (v, p, q) = bind-eq-some (read_u16_prefixed (new ext)) _ e in
    read_all-Yields (λ x. x < 65536) read_key_share_entry v.0 read_key_share_entry-Reads
      (u16_block ext o v p).0 out q
