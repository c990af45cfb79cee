-- ===== src/Sni/Reassembly/FastPath.antt =====
-- The fast path for a message in one record gives what the general loop gives.
use aegiuw.Prelude.{
  get_elem?-lt, ltb, leb, ◌==◌, within, lt→ltb, le→leb, leb→le, Bytes, length, get_elem?, take,
  map_option, bind-eq-some, map_option-eq-some, when-eq-some, ℕ, ◌≤◌, ◌<◌, ◌≡◌, refl, sym, true,
  false, Option, none, some, arith,
}
use aegiuw.Cursor.{Cursor, new, remaining, read_u8, read_u16}
use aegiuw.Cursor.Ensures.{read_slice-length, guard-eq-some}
use aegiuw.Sni.Types.{
  borrowed, owned, into_owned, max_handshake_bytes, content_type_handshake, max_record_fragment,
}
use aegiuw.Sni.Reassembly.{
  handshake_total, done, accumulate, complete, expect_total, read_record, read_single_fragment,
  reassemble_loop, reassemble_handshake_owned, empty_buffer, try_reassemble_single_record,
  parse_record_inner,
}
use aegiuw.Sni.Reassembly.Totals.{handshake_total_bounds}

-- The fast path's record, read by a round of the loop.
read_record-single :
    (c : Cursor) (f : Bytes) (c' : Cursor)
    → read_single_fragment c ≡ some (f, c')
    → (read_record empty_buffer c ≡ map_option (λ r. (r, c')) (accumulate empty_buffer f))
      × (length f ≤ max_record_fragment)
unfolding read_single_fragment read_record
read_record-single c f c' e =
    let ((t, c1), p1, e1) = bind-eq-some (read_u8 c) _ e in
    let (g1, e2) = guard-eq-some (t == content_type_handshake) _ c1 e1 in
    let ((v, c2), p2, e3) = bind-eq-some (read_u16 c1) _ e2 in
    let ((n, c3), p3, e4) = bind-eq-some (read_u16 c2) _ e3 in
    let (g2, e5) = guard-eq-some (within 4 max_record_fragment n) _ c3 e4 in
    let size = read_slice-length n c3 f c' e5 in
    let small : leb n max_record_fragment ≡ true = ground arith in
    let full : (n == 0) ≡ false = ground arith in
    (rw (p1, g1, p2, p3, small, full, e5) refl, omega (arith, leb→le n max_record_fragment small))

-- Whatever the fast path returns, the first round of the loop returns.
accumulate-single :
    (f : Bytes) (total : ℕ)
    → length f ≤ max_record_fragment
    → handshake_total f ≡ some total
    → total ≤ length f
    → accumulate empty_buffer f ≡ some (done (take total f))
unfolding accumulate expect_total complete
accumulate-single f total small h le =
    let (_, _, four) = handshake_total_bounds f h in
    let cap : ltb max_handshake_bytes (length f) ≡ false = ground arith in
    rw (cap, le→leb 4 (length f) four, h, le→leb total (length f) le)

remaining-read_u8 : (c : Cursor) {v : ℕ × Cursor} → read_u8 c ≡ some v → 0 < remaining c
unfolding read_u8 remaining
remaining-read_u8 c e =
    let (x, p, _) = map_option-eq-some _ (get_elem? c.bytes c.pos) e in
    omega (arith, get_elem?-lt c.bytes c.pos p)

owned-of_single :
    (records h : Bytes)
    → try_reassemble_single_record records ≡ some h
    → reassemble_handshake_owned records ≡ some h
unfolding try_reassemble_single_record reassemble_handshake_owned reassemble_loop
owned-of_single records h e =
    let ((f, c'), p, e1) = bind-eq-some (read_single_fragment (new records)) _ e in
    let (total, q, e2) = bind-eq-some (handshake_total f) _ e1 in
    let (le, e3) = when-eq-some (leb total (length f)) _ e2 in
    let (round, small) = read_record-single (new records) f c' p in
    let (_, p1, _) = bind-eq-some (read_u8 (new records)) _ (unfold read_single_fragment in p) in
    rw
      (
        lt→ltb 0 (remaining (new records)) (remaining-read_u8 (new records) p1),
        round,
        accumulate-single f total small q (leb→le total (length f) le),
      )
      e3

-- The fast path is an optimisation only: the handshake that is found, or its absence, is that of
-- the loop over all records, for every input.
pub parse_record_inner-eq-owned :
    (records : Bytes)
    → map_option into_owned (parse_record_inner records) ≡ reassemble_handshake_owned records
unfolding parse_record_inner
parse_record_inner-eq-owned records = go (try_reassemble_single_record records) refl
  where
    go :
        (o : Option Bytes)
        → try_reassemble_single_record records ≡ o
        → map_option into_owned (elim o [
          | some handshake ↦ some (borrowed handshake)
          | none ↦ map_option owned (reassemble_handshake_owned records)
        ])
          ≡ reassemble_handshake_owned records
    go (some h) e = sym (owned-of_single records h e)
    go none e =
        elim (reassemble_handshake_owned records)
          as (λ o. map_option into_owned (map_option owned o) ≡ o) [ none ↦ refl | some h ↦ refl ]
