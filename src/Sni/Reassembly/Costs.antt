-- ===== src/Sni/Reassembly/Costs.antt =====
-- What a message costs: five bytes for the header of a record besides its own.
use aegiuw.Prelude.{
  ltb, leb, ◌==◌, if◌then◌else◌, leb→le, Bool-cases, Bytes, length, length-append, length-take,
  bind-eq-some, map_option-eq-some, when-eq-some, ℕ, zero, suc, ◌+◌, ◌≤◌, ◌≡◌, ap, ◌∙◌, subst, ◌⊎◌,
  inl, inr, true, false, some, some-injective, ◌++◌, arith,
}
use aegiuw.Cursor.{Cursor, new, remaining, read_u8, read_u16, read_slice, lift, pure, ◌>>=◌}
use aegiuw.Cursor.Loop.{read_u8-Advances, read_u16-Advances, read_slice-Advances}
use aegiuw.Cursor.Ensures.{read_slice-length, guard-eq-some}
use aegiuw.Sni.Types.{content_type_handshake, max_record_fragment}
use aegiuw.Sni.Reassembly.{
  Buffer, Round, more, done, empty_buffer, accumulate, read_record, reassemble_loop,
  reassemble_handshake_owned,
}
use aegiuw.Sni.Reassembly.Totals.{Waits, accumulate-EndsWell}
use aegiuw.Sni.Reassembly.Bounds.{Keeps, read_record-Keeps}

-- A slice ends within the bytes.
read_slice-le :
    (n : ℕ) (d : Cursor) (f : Bytes) (c' : Cursor)
    → read_slice n d ≡ some (f, c')
    → d.pos + n ≤ length d.bytes
unfolding read_slice
read_slice-le n d f c' e = leb→le _ _ (when-eq-some (leb (d.pos + n) (length d.bytes)) _ e).0

-- A round from `c` to `c'` buffers five bytes fewer than it passes at the least, and a whole message is
-- five bytes shorter than what was there.
abbrev Costs : Buffer → Cursor → Round → Cursor → Type 0
Costs b c (more b') c' =
    (c'.bytes ≡ c.bytes) × (length b'.bytes + 5 + c.pos ≤ length b.bytes + c'.pos)
Costs b c (done h) c' = length h + 5 + c.pos ≤ length b.bytes + length c.bytes

-- The fragment of a record, from the place behind the record's header.
fragment-Costs :
    (b : Buffer) (c d : Cursor) (f : Bytes) (r : Round) (c' : Cursor)
    → Waits b.expected_total b.bytes
    → d.bytes ≡ c.bytes
    → c.pos + 5 ≤ d.pos
    → read_slice (length f) d ≡ some (f, c')
    → accumulate b f ≡ some r
    → Costs b c r c'
fragment-Costs b c d f (more b') c' w same behind e k =
    let (bytes, pos) = read_slice-Advances (length f) d f c' e in
    let buffered = ap length (accumulate-EndsWell b f w k).0 in
    (bytes ∙ same, omega (arith, pos, buffered, length-append b.bytes f))
fragment-Costs b c d f (done h) c' w same behind e k =
    let within_slice = read_slice-le (length f) d f c' e in
    let cut = ap length (accumulate-EndsWell b f w k).1 in
    omega (
      arith,
      within_slice,
      cut,
      ap length same,
      length-take (length h) (b.bytes ++ f),
      length-append b.bytes f,
    )

read_record-Costs :
    (b : Buffer) (c : Cursor) (r : Round) (c' : Cursor)
    → Waits b.expected_total b.bytes
    → read_record b c ≡ some (r, c')
    → Costs b c r c'
unfolding read_record
read_record-Costs b c r c' w e =
    let ((t, c1), e1, q1) = bind-eq-some (read_u8 c) _ e in
    let (_, g1) = guard-eq-some (t == content_type_handshake) _ c1 q1 in
    let ((v, c2), e2, q2) = bind-eq-some (read_u16 c1) _ g1 in
    let ((n, c3), e3, q3) = bind-eq-some (read_u16 c2) _ q2 in
    let (_, g3) = guard-eq-some (leb n max_record_fragment) _ c3 q3 in
    let (s1, p1) = read_u8-Advances c t c1 e1 in
    let (s2, p2) = read_u16-Advances c1 v c2 e2 in
    let (s3, p3) = read_u16-Advances c2 n c3 e3 in
    body n c3 (s3 ∙ s2 ∙ s1) (omega (arith, p1, p2, p3)) (Bool-cases (n == 0)) g3
  where
    body :
        (n : ℕ) (d : Cursor)
        → d.bytes ≡ c.bytes
        → c.pos + 5 ≤ d.pos
        → ((n == 0) ≡ true) ⊎ ((n == 0) ≡ false)
        → (if n == 0 then pure (more b) else (read_slice n >>= λ f. lift (accumulate b f))) d
          ≡ some (r, c')
        → Costs b c r c'
    body n d same behind (inl y) g =
        subst (λ v. Costs b c v.0 v.1) (some-injective _ _ (rw y at g)) (same, omega arith)
    body n d same behind (inr z) g =
        let ((f, c4), e4, q4) = bind-eq-some (read_slice n d) _ (rw z at g) in
        let (r', k, eq) = map_option-eq-some (λ a. (a, c4)) (accumulate b f) q4 in
        let size = read_slice-length n d f c4 e4 in
        subst (λ v. Costs b c v.0 v.1) eq
          (fragment-Costs b c d f r' c4 w same behind (rw size e4) k)

-- From any buffer and place, a message is five bytes shorter than what the buffer and the slice hold.
reassemble_loop-cost :
    (fuel : ℕ) (b : Buffer) (c : Cursor) (h : Bytes)
    → Waits b.expected_total b.bytes
    → reassemble_loop fuel b c ≡ some h
    → length h + 5 + c.pos ≤ length b.bytes + length c.bytes
unfolding reassemble_loop
reassemble_loop-cost zero b c h w e = absurd (cc)
reassemble_loop-cost (suc fuel) b c h w e =
    let (_, e') = when-eq-some (ltb 0 (remaining c)) _ e in
    let ((r, c'), p, q) = bind-eq-some (read_record b c) _ e' in
    go r c' (reassemble_loop-cost fuel) (read_record-Keeps b w c r c' p)
      (read_record-Costs b c r c' w p) q
  where
    go :
        (r : Round) (c' : Cursor)
        → ((b' : Buffer) (c' : Cursor) (h : Bytes)
            → Waits b'.expected_total b'.bytes
            → reassemble_loop fuel b' c' ≡ some h
            → length h + 5 + c'.pos ≤ length b'.bytes + length c'.bytes)
        → Keeps r
        → Costs b c r c'
        → elim r [ more b' ↦ reassemble_loop fuel b' c' | done handshake ↦ some handshake ] ≡ some h
        → length h + 5 + c.pos ≤ length b.bytes + length c.bytes
    go (more b') c' ih k (same, paid) q = omega (arith, ih b' c' h k q, paid, ap length same)
    go (done x) c' ih k paid q =
        subst (λ y. length y + 5 + c.pos ≤ length b.bytes + length c.bytes) (some-injective _ _ q)
          paid

-- A message that is reassembled is at least five bytes shorter than the records.
pub reassemble_handshake_owned_cost :
    (records h : Bytes)
    → reassemble_handshake_owned records ≡ some h
    → length h + 5 ≤ length records
unfolding reassemble_handshake_owned new
reassemble_handshake_owned_cost records h e = omega (
  arith,
  reassemble_loop-cost (suc (length records)) empty_buffer (new records) h (omega arith) e,
)
