-- ===== src/Sni/ServerName/Valid.antt =====
-- The names that `parse_server_name_extension` lets through, and that it lets all of them through.
use aegiuw.Prelude.{
  all-append, ltb, ◌==◌, if◌then◌else◌, lt→ltb, Bool-cases, Bytes, length, all, length-append, ℕ,
  ◌/◌, ◌%◌, ◌≤◌, ◌<◌, ◌≡◌, refl, ap, ◌∙◌, subst, ◌≢◌, inl, inr, Bool, true, false, not, Option,
  none, some, [], ◌∷◌, ◌++◌, arith,
}
use aegiuw.Cursor.{Cursor, new, remaining, read_u8, read_u16_prefixed}
use aegiuw.Cursor.Reading.{
  at, new-at, remaining-at, read_u8-at, read_u8-at_end, read_u16_prefixed-last,
}
use aegiuw.Sni.Std.{is_utf8, utf8_run, utf8_lead, strip_dot, is_ip_addr, split_dots}
use aegiuw.Sni.Types.{host, skip, malformed, name_type_host_name}
use aegiuw.Sni.Wire.{u16_bytes, server_name_list}
use aegiuw.Sni.ServerName.Labels.{AreLabels, has_long_label-split_dots}
use aegiuw.Sni.ServerName.{
  max_hostname_len, has_long_label, is_ldh, after_host, check_host, parse_host_entry,
  parse_server_name_extension,
}

-- A host name as RFC 6066 and RFC 1035 have it, but for empty labels, which are let through.
pub record IsHostName (h : Bytes) : Type 0 where
  pub ne_nil : h ≢ []
  pub short : length h ≤ max_hostname_len
  pub labels : AreLabels (split_dots h)
  pub no_address : is_ip_addr h ≡ false
  pub ldh : all is_ldh h ≡ true

after_host-eq-host : (h : Bytes) (c : Cursor) {x : Bytes} → after_host h c ≡ host x → h ≡ x
unfolding after_host
after_host-eq-host h c e = ground arith

check_host-IsHostName :
    (h : Bytes) (c : Cursor) {x : Bytes} → check_host h c ≡ host x → IsHostName x
unfolding check_host
check_host-IsHostName [] c e = absurd (cc)
check_host-IsHostName (b ∷ s) c {x} e =
    go (has_long_label 0 0 h) refl (is_ip_addr h) refl (all is_ldh h) refl
      (ltb max_hostname_len (length h)) refl e
  where
    h : Bytes
    h = b ∷ s

    go :
        (long : Bool)
        → has_long_label 0 0 (b ∷ s) ≡ long
        → (ip : Bool) → is_ip_addr (b ∷ s) ≡ ip
        → (ldh : Bool) → all is_ldh (b ∷ s) ≡ ldh
        → (size : Bool) → ltb max_hostname_len (length (b ∷ s)) ≡ size
        → (if size
            then malformed
            else if long
            then malformed
            else if ip
            then malformed
            else if not ldh
            then malformed
            else after_host (b ∷ s) c)
          ≡ host x
        → IsHostName x
    go false a false i true l false z e =
        subst IsHostName (after_host-eq-host (b ∷ s) c e) (record {
          ne_nil = λ n. cc n;
          short = ground arith;
          labels = (has_long_label-split_dots (b ∷ s)).0 a;
          no_address = i;
          ldh = l;
        })
    go _ a _ i _ l _ z e = absurd (ground arith)

parse_host_entry-IsHostName : (c : Cursor) {x : Bytes} → parse_host_entry c ≡ host x → IsHostName x
unfolding parse_host_entry
parse_host_entry-IsHostName c {x} = go (read_u16_prefixed c)
  where
    go :
        (o : Option (Bytes × Cursor))
        → elim o [
          | none ↦ malformed
          | some (name, entries') ↦
              if is_utf8 name then check_host (strip_dot name) entries' else skip
        ]
          ≡ host x
        → IsHostName x
    go none e = absurd (cc)
    go (some (name, d)) e = elim (Bool-cases (is_utf8 name)) [
      | inl y ↦ check_host-IsHostName (strip_dot name) d (rw y at e)
      | inr n ↦ absurd (cc (rw n at e))
    ]

-- Whatever name the extension yields is a host name: not empty, of 253 bytes at most, its labels of 63
-- at most, of letters, digits, hyphens and dots, and no IP address.
pub parse_server_name_extension-IsHostName :
    (ext : Bytes) {x : Bytes} → parse_server_name_extension ext ≡ host x → IsHostName x
unfolding parse_server_name_extension
parse_server_name_extension-IsHostName ext {x} = go (read_u16_prefixed (new ext))
  where
    after_type :
        (o : Option (ℕ × Cursor))
        → elim o [
          | none ↦ malformed
          | some (name_type, entries) ↦
              if name_type == name_type_host_name then parse_host_entry entries else skip
        ]
          ≡ host x
        → IsHostName x
    after_type none e = absurd (cc)
    after_type (some (t, d)) e = elim (Bool-cases (t == name_type_host_name)) [
      | inl y ↦ parse_host_entry-IsHostName d (rw y at e)
      | inr n ↦ absurd (cc (rw n at e))
    ]

    go :
        (o : Option (Bytes × Cursor))
        → elim o [
          | none ↦ malformed
          | some (list, _) ↦
              if ltb (remaining (new list)) 3 then malformed else elim (read_u8 (new list)) [
                | none ↦ malformed
                | some (name_type, entries) ↦
                    if name_type == name_type_host_name then parse_host_entry entries else skip
              ]
        ]
          ≡ host x
        → IsHostName x
    go none e = absurd (cc)
    go (some (list, d)) e = elim (Bool-cases (ltb (remaining (new list)) 3)) [
      | inl y ↦ absurd (cc (rw y at e))
      | inr n ↦ after_type (read_u8 (new list)) (rw n at e)
    ]

utf8_lead-ascii : (b : ℕ) → b < 0x80 → utf8_lead b ≡ some []
unfolding utf8_lead
utf8_lead-ascii b h = rw (lt→ltb b 0x80 h)

-- ASCII text is UTF-8.
is_utf8-ldh : (h : Bytes) → all is_ldh h ≡ true → is_utf8 h ≡ true
unfolding is_utf8 utf8_run utf8_lead
is_utf8-ldh [] e = refl
is_utf8-ldh (b ∷ h) e =
    let rest : all is_ldh h ≡ true = ground arith in
    rw (utf8_lead-ascii b (ground arith), utf8_run) (is_utf8-ldh h rest)

strip_dot-dot : (h : Bytes) → strip_dot (h ++ b'.' ∷ []) ≡ h
unfolding strip_dot
strip_dot-dot [] = refl
strip_dot-dot (b ∷ []) = refl
strip_dot-dot (b ∷ c ∷ h) = ap (◌∷◌ b) (strip_dot-dot (c ∷ h))

-- A valid name passes the checks, and what stands behind it decides.
pub check_host-of_IsHostName :
    (h : Bytes) (c : Cursor) → IsHostName h → check_host h c ≡ after_host h c
unfolding check_host
check_host-of_IsHostName [] c v = absurd (v.ne_nil refl)
check_host-of_IsHostName (b ∷ s) c v =
    let size : ltb max_hostname_len (length (b ∷ s)) ≡ false = ground (arith, v.short) in
    rw (size, (has_long_label-split_dots (b ∷ s)).1 v.labels, v.no_address, v.ldh) refl

after_host-at_end : (h pre : Bytes) → after_host h (at pre []) ≡ host h
unfolding after_host
after_host-at_end h pre = rw (read_u8-at_end pre, after_host) refl

-- A list of one entry, with any text that the name is read from.
module _ (name h : Bytes) (v : IsHostName h) (utf8 : is_utf8 name ≡ true)
    (names : strip_dot name ≡ h) (size : length name < 65533) where
  parse-server_name_list : parse_server_name_extension (server_name_list name) ≡ host h
  unfolding parse_server_name_extension server_name_list u16_bytes
  parse-server_name_list =
      let n = length name in
      let hi = n % 65536 / 256 in
      let lo = n % 256 in
      let entry = 0 ∷ hi ∷ lo ∷ name in
      let m = length entry in
      let pre : Bytes = 0 ∷ [] in
      let enough : ltb (length entry) 3 ≡ false = ground arith in
      rw (new-at (server_name_list name), parse_server_name_extension)
        (rw
          (
            read_u16_prefixed-last [] (m % 65536 / 256) (m % 256) entry (omega arith),
            new-at entry,
            remaining-at [] entry,
            enough,
            read_u8-at [] 0 (hi ∷ lo ∷ name),
          )
          (rw (read_u16_prefixed-last pre hi lo name (omega arith), parse_host_entry)
            (rw (utf8, names)
              (check_host-of_IsHostName h _ v
                ∙ after_host-at_end h ((pre ++ hi ∷ lo ∷ []) ++ name)))))

-- A valid host name that ends in no dot, written as a list of one name, is read back.
pub parse_server_name_extension-server_name_list :
    (h : Bytes)
    → IsHostName h
    → strip_dot h ≡ h
    → parse_server_name_extension (server_name_list h) ≡ host h
parse_server_name_extension-server_name_list h v e =
    parse-server_name_list h h v (is_utf8-ldh h v.ldh) e (omega (arith, v.short))

-- A valid host name with a dot behind it, written as a list of one name, is read back without that dot.
pub parse_server_name_extension_dotted :
    (h : Bytes)
    → IsHostName h
    → parse_server_name_extension (server_name_list (h ++ b'.' ∷ [])) ≡ host h
parse_server_name_extension_dotted h v =
    let dotted = h ++ b'.' ∷ [] in
    let ldh : all is_ldh dotted ≡ true = rw (all-append is_ldh h (b'.' ∷ []), v.ldh) refl in
    parse-server_name_list dotted h v (is_utf8-ldh dotted ldh) (strip_dot-dot h)
      (omega (arith, length-append h (b'.' ∷ []), v.short))
