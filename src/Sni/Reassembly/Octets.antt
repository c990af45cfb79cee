-- ===== src/Sni/Reassembly/Octets.antt =====
-- A message that is reassembled from octets is of octets.
use aegiuw.Prelude.{
  ltb, leb, ◌==◌, Bool-cases, Bytes, length, bind-eq-some, map_option-eq-some, unless-eq-some,
  when-eq-some, ℕ, zero, suc, ◌<◌, ◌≡◌, subst, inl, inr, Option, none, some, some-injective, ◌++◌,
}
use aegiuw.Cursor.{Cursor, new, remaining, read_u8, read_u16, read_slice}
use aegiuw.Cursor.Octets.{
  AreOctets, AllOk-append, AreBelow-take, Reads, >>=-Reads, guard-Reads, if-Reads, pure-Reads,
  lift-Reads, read_u8-Reads, read_u16-Reads, read_slice-Reads,
}
use aegiuw.Sni.Types.{content_type_handshake, max_record_fragment, max_handshake_bytes}
use aegiuw.Sni.Reassembly.{
  Buffer, Round, more, done, empty_buffer, expect_total, complete, accumulate, read_record,
  reassemble_loop, reassemble_handshake_owned,
}

abbrev RoundOctets : Round → Type 0
RoundOctets (more b) = AreOctets b.bytes
RoundOctets (done h) = AreOctets h

complete-RoundOctets :
    (buf : Bytes) (total : Option ℕ) → AreOctets buf → RoundOctets (complete buf total)
unfolding complete
complete-RoundOctets buf none o = o
complete-RoundOctets buf (some need) o = elim (Bool-cases (leb need (length buf))) [
  | inl y ↦ rw y (AreBelow-take 256 need buf o)
  | inr n ↦ rw n o
]

accumulate-RoundOctets :
    (b : Buffer) (f : Bytes) (r : Round)
    → AreOctets b.bytes
    → AreOctets f
    → accumulate b f ≡ some r
    → RoundOctets r
unfolding accumulate
accumulate-RoundOctets b f r o k e =
    let (_, e') = unless-eq-some (ltb max_handshake_bytes (length (b.bytes ++ f))) _ e in
    let (total, _, q) =
      map_option-eq-some (complete (b.bytes ++ f)) (expect_total b.expected_total (b.bytes ++ f))
        e' in
    subst RoundOctets q
      (complete-RoundOctets (b.bytes ++ f) total (AllOk-append (λ x. x < 256) b.bytes f o k))

read_record-Reads : (b : Buffer) → AreOctets b.bytes → Reads RoundOctets (read_record b)
unfolding read_record
read_record-Reads b o =
    let Q : Round → Type 0 = RoundOctets in
    >>=-Reads _ Q read_u8 _ read_u8-Reads λ content_type _.
      guard-Reads Q (content_type == content_type_handshake) _ λ _.
        >>=-Reads _ Q read_u16 _ read_u16-Reads λ version _.
          >>=-Reads _ Q read_u16 _ read_u16-Reads λ n _.
            guard-Reads Q (leb n max_record_fragment) _ λ _.
              if-Reads Q (n == 0) _ _ (pure-Reads Q (more b) o) (
                >>=-Reads _ Q (read_slice n) _ (read_slice-Reads n)
                  λ f k. lift-Reads Q (accumulate b f) λ r. accumulate-RoundOctets b f r o k.0)

reassemble_loop-AreOctets :
    (fuel : ℕ) (b : Buffer) (c : Cursor) (h : Bytes)
    → AreOctets b.bytes
    → AreOctets c.bytes
    → reassemble_loop fuel b c ≡ some h
    → AreOctets h
unfolding reassemble_loop
reassemble_loop-AreOctets zero b c h o k e = absurd (cc)
reassemble_loop-AreOctets (suc fuel) b c h o k e =
    let (_, e') = when-eq-some (ltb 0 (remaining c)) _ e in
    let ((r, c'), p, q) = bind-eq-some (read_record b c) _ e' in
    let (k', kept) = read_record-Reads b o c r c' k p in
    go r c' (reassemble_loop-AreOctets fuel) kept k' q
  where
    go :
        (r : Round) (c' : Cursor)
        → ((b' : Buffer) (c' : Cursor) (h : Bytes)
            → AreOctets b'.bytes
            → AreOctets c'.bytes
            → reassemble_loop fuel b' c' ≡ some h
            → AreOctets h)
        → RoundOctets r
        → AreOctets c'.bytes
        → elim r [ more b' ↦ reassemble_loop fuel b' c' | done handshake ↦ some handshake ] ≡ some h
        → AreOctets h
    go (more b') c' ih kept k' q = ih b' c' h kept k' q
    go (done x) c' ih kept k' q = subst AreOctets (some-injective _ _ q) kept

pub reassemble_handshake_owned-AreOctets :
    (records : Bytes) {h : Bytes}
    → AreOctets records
    → reassemble_handshake_owned records ≡ some h
    → AreOctets h
unfolding reassemble_handshake_owned new
reassemble_handshake_owned-AreOctets records {h} o e =
    reassemble_loop-AreOctets (suc (length records)) empty_buffer (new records) h tt o e
