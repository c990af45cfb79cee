-- ===== src/Sni/Reassembly/Stream.antt =====
-- More bytes of the connection do not change a message that was reassembled.
use aegiuw.Prelude.{
  ltb, leb, ◌==◌, lt→ltb, Bytes, length, length-append, bind-eq-some, when-eq-some, ℕ, zero, suc,
  ◌≤◌, ◌≡◌, true, some, ◌++◌, arith,
}
use aegiuw.Cursor.{Cursor, new, remaining, read_u8, read_u16, read_slice, guard}
use aegiuw.Cursor.Stable.{
  Stable, extend, >>=-Stable, guard-Stable, pure-Stable, lift-Stable, if-Stable, read_u8-Stable,
  read_u16-Stable, read_slice-Stable,
}
use aegiuw.Sni.Types.{content_type_handshake, max_record_fragment}
use aegiuw.Sni.Reassembly.{
  Buffer, Round, more, done, accumulate, read_record, reassemble_loop, reassemble_handshake_owned,
  empty_buffer,
}

read_record-Stable : (b : Buffer) → Stable (read_record b)
unfolding read_record
read_record-Stable b = >>=-Stable read_u8 _ read_u8-Stable λ content_type.
    >>=-Stable (guard (content_type == content_type_handshake)) _ (guard-Stable _) λ _.
      >>=-Stable read_u16 _ read_u16-Stable λ version.
        >>=-Stable read_u16 _ read_u16-Stable λ fragment_len.
          >>=-Stable (guard (leb fragment_len max_record_fragment)) _ (guard-Stable _) λ _.
            if-Stable (fragment_len == 0) _ _ (pure-Stable (more b)) (
              >>=-Stable (read_slice fragment_len) _ (read_slice-Stable _)
                λ f. lift-Stable (accumulate b f))

remaining-extend : (s : Bytes) (c : Cursor) → remaining c ≤ remaining (extend s c)
unfolding remaining
remaining-extend s c = omega (arith, length-append c.bytes s)

reassemble_loop-extend :
    (s : Bytes) (m n : ℕ) (b : Buffer) (c : Cursor) {h : Bytes}
    → m ≤ n
    → reassemble_loop m b c ≡ some h
    → reassemble_loop n b (extend s c) ≡ some h
unfolding reassemble_loop
reassemble_loop-extend s zero n b c le e = absurd (cc)
reassemble_loop-extend s (suc m) zero b c le e = absurd (omega arith)
reassemble_loop-extend s (suc m) (suc n) b c {h = h} le e =
    let (some_left, e1) = when-eq-some (ltb 0 (remaining c)) _ e in
    let still_left : ltb 0 (remaining (extend s c)) ≡ true =
      lt→ltb 0 _ (ground (arith, remaining-extend s c)) in
    let ((r, d), p, q) = bind-eq-some (read_record b c) _ e1 in
    rw (still_left, read_record-Stable b s c r d p)
      (go r d (λ b'. reassemble_loop-extend s m n b' d {h = h} (omega arith)) q)
  where
    go :
        (r : Round) (d : Cursor)
        → ((b' : Buffer)
            → reassemble_loop m b' d ≡ some h
            → reassemble_loop n b' (extend s d) ≡ some h)
        → elim r [ more b' ↦ reassemble_loop m b' d | done handshake ↦ some handshake ] ≡ some h
        → elim r [ more b' ↦ reassemble_loop n b' (extend s d) | done handshake ↦ some handshake ]
          ≡ some h
    go (more b') d ih q = ih b' q
    go (done x) d ih q = q

-- Once a message is reassembled, any bytes behind leave it as it is.
pub reassemble_handshake_owned-append :
    (records s : Bytes) {h : Bytes}
    → reassemble_handshake_owned records ≡ some h
    → reassemble_handshake_owned (records ++ s) ≡ some h
unfolding reassemble_handshake_owned new
reassemble_handshake_owned-append records s =
    reassemble_loop-extend s (suc (length records)) (suc (length (records ++ s))) empty_buffer
      (new records) (omega (arith, length-append records s))
