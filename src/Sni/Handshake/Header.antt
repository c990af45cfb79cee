-- ===== src/Sni/Handshake/Header.antt =====
-- The message in front of its extensions, and the whole message, read back from the wire.
use aegiuw.Prelude.{
  le→leb, ==_iff, Bytes, length, replicate, is_empty, map_option, map_option-eq-some, ℕ, ◌/◌, ◌%◌,
  ◌≤◌, ◌<◌, ◌≡◌, refl, sym, ap, ◌∙◌, true, false, some, [], ◌∷◌, ◌++◌, append-nil, arith,
}
use aegiuw.Cursor.{new, ◌>>=◌}
use aegiuw.Cursor.Reading.{
  new-at, read_u8-at, read_u16-at, read_u24-at, read_slice-at, read_u8_prefixed-at,
  read_u16_prefixed-at,
}
use aegiuw.Sni.Types.{handshake_type_client_hello, tls_legacy_version}
use aegiuw.Sni.Wire.{u16_bytes, u24_bytes, message_body, build_handshake_message_custom}
use aegiuw.Sni.Handshake.{
  contains, u16_chunks, read_client_hello, parse_handshake_message_full, scan_extensions,
  initial_scan, publish_host,
}

-- The parts of a message that the parser accepts: what RFC 8446 asks for.
pub record IsHello (exts session_id suites compression : Bytes) : Type 0 where
  pub session_short : length session_id ≤ 32
  pub suites_ne_nil : is_empty suites ≡ false
  pub suites_even : length suites % 2 ≡ 0
  pub suites_short : length suites < 65536
  pub compression_short : length compression < 256
  pub compression_null : contains 0 compression ≡ true
  pub exts_short : length exts < 65536

-- The body of a message with any random and any bytes behind the extensions.
unfoldable pub hello_body : Bytes → Bytes → Bytes → Bytes → Bytes → Bytes → Bytes
unfolding u16_bytes
hello_body random exts sid cs comp behind =
    u16_bytes tls_legacy_version
    ++ (random
        ++ ((length sid % 256)
            ∷ (sid
                ++ (u16_bytes (length cs)
                    ++ (cs
                        ++ ((length comp % 256)
                            ∷ (comp ++ (u16_bytes (length exts) ++ (exts ++ behind)))))))))

unfoldable pub hello_message : Bytes → Bytes → Bytes → Bytes → Bytes → Bytes → Bytes
unfolding hello_body u24_bytes
hello_message random exts sid cs comp behind =
    let body = hello_body random exts sid cs comp behind in
    handshake_type_client_hello ∷ (u24_bytes (length body) ++ body)

-- A message with these parts, any random, and any bytes behind its extensions.
pub record IsMessage (exts session_id suites compression message : Bytes) : Type 0 where
  pub random : Bytes
  pub random_size : length random ≡ 32
  pub behind : Bytes
  pub written : message ≡ hello_message random exts session_id suites compression behind

-- The builder writes one.
pub build-IsMessage :
    (exts sid cs comp : Bytes)
    → IsMessage exts sid cs comp
        (build_handshake_message_custom exts tls_legacy_version sid cs comp)
unfolding build_handshake_message_custom message_body hello_message
build-IsMessage exts sid cs comp = record {
  random = replicate 32 0xaa;
  random_size = refl;
  behind = [];
  written = rw (append-nil exts) refl;
}

module _ (random exts sid cs comp behind : Bytes) (v : IsHello exts sid cs comp)
    (size : length random ≡ 32) where
  abbrev e0 : Bytes
  e0 = (length exts % 65536 / 256) ∷ (length exts % 256) ∷ (exts ++ behind)

  abbrev comp0 : Bytes
  comp0 = (length comp % 256) ∷ (comp ++ e0)

  abbrev cs0 : Bytes
  cs0 = (length cs % 65536 / 256) ∷ (length cs % 256) ∷ (cs ++ comp0)

  abbrev sid0 : Bytes
  sid0 = (length sid % 256) ∷ (sid ++ cs0)

  abbrev whole : Bytes
  whole = hello_message random exts sid cs comp behind

  abbrev hi : ℕ
  hi = length (hello_body random exts sid cs comp behind) / 65536 % 256

  abbrev mi : ℕ
  mi = length (hello_body random exts sid cs comp behind) / 256 % 256

  abbrev lo : ℕ
  lo = length (hello_body random exts sid cs comp behind) % 256

  -- What stands in front of each field.
  abbrev p1 : Bytes
  p1 = 1 ∷ []

  abbrev p2 : Bytes
  p2 = p1 ++ hi ∷ mi ∷ lo ∷ []

  abbrev p3 : Bytes
  p3 = p2 ++ 3 ∷ 3 ∷ []

  abbrev p4 : Bytes
  p4 = p3 ++ random

  abbrev p5 : Bytes
  p5 = (p4 ++ (length sid % 256) ∷ []) ++ sid

  abbrev p6 : Bytes
  p6 = (p5 ++ (length cs % 65536 / 256) ∷ (length cs % 256) ∷ []) ++ cs

  abbrev p7 : Bytes
  p7 = (p6 ++ (length comp % 256) ∷ []) ++ comp

  -- The readers in the order of the fields.
  read_client_hello-hello_message :
      map_option
        (λ (r, _). r)
        (read_client_hello (new (hello_message random exts sid cs comp behind)))
      ≡ some (u16_chunks cs, exts)
  unfolding read_client_hello hello_message hello_body u16_bytes u24_bytes
  read_client_hello-hello_message =
      rw (new-at whole, read_client_hello)
        (rw
          (
            read_u8-at [] 1 (hi ∷ mi ∷ lo ∷ 3 ∷ 3 ∷ (random ++ sid0)),
            read_u24-at p1 (3 ∷ 3 ∷ (random ++ sid0)) hi mi lo,
            read_u16-at p2 (random ++ sid0) 3 3,
            read_slice-at p3 random sid0 32 (sym size),
          )
          (rw
            (
              read_u8_prefixed-at p4 cs0 (length sid % 256) sid (omega (arith, v.session_short)),
              ◌>>=◌,
              le→leb (length sid) 32 v.session_short,
            )
            (rw
              (
                read_u16_prefixed-at p5 comp0 (length cs % 65536 / 256) (length cs % 256) cs
                    (omega (arith, v.suites_short)),
                v.suites_ne_nil,
                (==_iff _ 0).1 v.suites_even,
              )
              (rw
                (
                  read_u8_prefixed-at p6 e0 (length comp % 256) comp
                      (omega (arith, v.compression_short)),
                  v.compression_null,
                  read_u16_prefixed-at p7 behind (length exts % 65536 / 256) (length exts % 256)
                      exts (omega (arith, v.exts_short)),
                )
                refl))))

  -- Such a message comes down to the scan of its extensions.
  parse_handshake_message_full-hello_message :
      parse_handshake_message_full (hello_message random exts sid cs comp behind)
      ≡ map_option publish_host (scan_extensions exts (initial_scan (u16_chunks cs)))
  unfolding parse_handshake_message_full
  parse_handshake_message_full-hello_message =
      let ((r, c), p, q) =
        map_option-eq-some _ (read_client_hello (new whole)) read_client_hello-hello_message in
      rw (p, q) refl

-- A message whose fields satisfy `IsHello`, with any random and any bytes behind its extensions, is
-- read field by field: what is left is the scan of its extensions, from a state that holds its cipher
-- suites and nothing else.
pub parse_handshake_message_full-message :
    (exts sid cs comp msg : Bytes)
    → IsHello exts sid cs comp
    → IsMessage exts sid cs comp msg
    → parse_handshake_message_full msg
      ≡ map_option publish_host (scan_extensions exts (initial_scan (u16_chunks cs)))
parse_handshake_message_full-message exts sid cs comp msg v w =
    ap parse_handshake_message_full w.written
    ∙ parse_handshake_message_full-hello_message w.random exts sid cs comp w.behind v w.random_size

-- So is what the builder writes.
pub parse_handshake_message_full-build :
    (exts sid cs comp : Bytes)
    → IsHello exts sid cs comp
    → parse_handshake_message_full
        (build_handshake_message_custom exts tls_legacy_version sid cs comp)
      ≡ map_option publish_host (scan_extensions exts (initial_scan (u16_chunks cs)))
parse_handshake_message_full-build exts sid cs comp v =
    parse_handshake_message_full-message exts sid cs comp _ v (build-IsMessage exts sid cs comp)
