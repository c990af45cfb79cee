-- ===== src/Sni/Reassembly/Bounds.antt =====
-- What the record loop returns, whatever the bytes, and that it always ends by its own test.
use aegiuw.Prelude.{
  ltb, leb, ◌==◌, Bytes, length, Option-cases, bind-eq-some, when-eq-some, ℕ, zero, suc, ◌≤◌, ◌<◌,
  ◌≡◌, refl, subst, inl, inr, some, some-injective, arith,
}
use aegiuw.Cursor.{Cursor, new, remaining, read_u8, read_u16, read_slice, guard}
use aegiuw.Cursor.Loop.{
  Advances, >>=-Advances, read_u8-Advances, read_u16-Advances, lift-Advances, guard-Advances,
  pure-Advances, if-Advances, read_slice-Advances_zero, remaining-lt,
}
use aegiuw.Cursor.Ensures.{
  Ensures, >>=-Ensures, guard-Ensures, if-Ensures, pure-Ensures, lift-Ensures,
}
use aegiuw.Sni.Types.{max_handshake_bytes, content_type_handshake, max_record_fragment}
use aegiuw.Sni.Reassembly.{
  Buffer, Round, more, done, accumulate, read_record, reassemble_loop, reassemble_handshake_owned,
  empty_buffer,
}
use aegiuw.Sni.Reassembly.Totals.{Waits, IsWhole, accumulate-EndsWell, handshake_total_bounds}

read_record-Advances : (b : Buffer) → Advances 5 (read_record b)
unfolding read_record
read_record-Advances b = >>=-Advances 1 4 read_u8 _ read_u8-Advances λ content_type.
    >>=-Advances 0 4 (guard (content_type == content_type_handshake)) _ (guard-Advances _) λ _.
      >>=-Advances 2 2 read_u16 _ read_u16-Advances λ version.
        >>=-Advances 2 0 read_u16 _ read_u16-Advances λ fragment_len.
          >>=-Advances 0 0 (guard (leb fragment_len max_record_fragment)) _ (guard-Advances _) λ _.
            if-Advances 0 (fragment_len == 0) _ _ (pure-Advances (more b)) (
              >>=-Advances 0 0 (read_slice fragment_len) _ (read_slice-Advances_zero _)
                λ f. lift-Advances (accumulate b f))

-- A round keeps what the buffer knows, and a whole message is what its header announces.
abbrev pub Keeps : Round → Type 0
Keeps (more b) = Waits b.expected_total b.bytes
Keeps (done h) = IsWhole h

accumulate-Keeps :
    (b : Buffer) (f : Bytes) (r : Round)
    → Waits b.expected_total b.bytes
    → accumulate b f ≡ some r
    → Keeps r
accumulate-Keeps b f (more b') w e = (accumulate-EndsWell b f w e).1
accumulate-Keeps b f (done h) w e = (accumulate-EndsWell b f w e).0

pub read_record-Keeps :
    (b : Buffer) → Waits b.expected_total b.bytes → Ensures Keeps (read_record b)
unfolding read_record
read_record-Keeps b w = >>=-Ensures Keeps read_u8 _ λ content_type _ _ _.
    guard-Ensures Keeps (content_type == content_type_handshake) _ λ _.
      >>=-Ensures Keeps read_u16 _ λ version _ _ _. >>=-Ensures Keeps read_u16 _ λ n _ _ _.
        guard-Ensures Keeps (leb n max_record_fragment) _ λ _.
          if-Ensures Keeps (n == 0) _ _ (pure-Ensures Keeps (more b) w) (
            >>=-Ensures Keeps (read_slice n) _
              λ f _ _ _. lift-Ensures Keeps (accumulate b f) λ r. accumulate-Keeps b f r w)

reassemble_loop-IsWhole :
    (fuel : ℕ) (b : Buffer) (c : Cursor) (h : Bytes)
    → Waits b.expected_total b.bytes
    → reassemble_loop fuel b c ≡ some h
    → IsWhole h
unfolding reassemble_loop
reassemble_loop-IsWhole zero b c h w e = cc
reassemble_loop-IsWhole (suc fuel) b c h w e =
    let (_, e') = when-eq-some (ltb 0 (remaining c)) _ e in
    let ((r, c'), p, q) = bind-eq-some (read_record b c) _ e' in
    go r c' (reassemble_loop-IsWhole fuel) (read_record-Keeps b w c r c' p) q
  where
    go :
        (r : Round) (c' : Cursor)
        → ((b' : Buffer) (c' : Cursor) (h : Bytes)
            → Waits b'.expected_total b'.bytes
            → reassemble_loop fuel b' c' ≡ some h
            → IsWhole h)
        → Keeps r
        → elim r [ more b' ↦ reassemble_loop fuel b' c' | done handshake ↦ some handshake ] ≡ some h
        → IsWhole h
    go (more b') c' ih k q = ih b' c' h k q
    go (done x) c' ih k q = subst IsWhole (some-injective _ _ q) k

-- Whenever a message is reassembled, it is exactly as long as its header announces, four bytes at
-- least, and the parser's maximum at most.
pub reassemble_handshake_owned-IsWhole :
    (records : Bytes) {h : Bytes}
    → reassemble_handshake_owned records ≡ some h
    → IsWhole h × (4 ≤ length h) × (length h ≤ max_handshake_bytes)
unfolding reassemble_handshake_owned
reassemble_handshake_owned-IsWhole records {h} e =
    let w = reassemble_loop-IsWhole _ empty_buffer (new records) h (omega arith) e in
    let (lo, hi, _) = handshake_total_bounds h w in (w, lo, hi)

-- From any buffer and place, any two numbers of rounds above the bytes left give the same: the loop
-- ends by itself and is not cut short.
pub reassemble_loop_fuel :
    (m n : ℕ) (b : Buffer) (c : Cursor)
    → remaining c < m
    → remaining c < n
    → reassemble_loop m b c ≡ reassemble_loop n b c
unfolding reassemble_loop
reassemble_loop_fuel zero n b c h k = absurd (omega arith)
reassemble_loop_fuel (suc m) zero b c h k = absurd (omega arith)
reassemble_loop_fuel (suc m) (suc n) b c h k = elim (Option-cases (read_record b c)) [
  | inl e ↦ rw e refl
  | inr ((done x, c'), e) ↦ rw e refl
  | inr ((more b', c'), e) ↦ rw e (
      let step = read_record-Advances b c (more b') c' e in
      ground (arith, reassemble_loop_fuel m n b' c', remaining-lt c c' (step.0, omega arith)))
]
