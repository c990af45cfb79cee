-- ===== src/Sni/Reassembly/Fragments.antt =====
-- A message cut into records comes back whole.
use aegiuw.Prelude.{
  ltb, leb, ◌==◌, if◌then◌else◌, le→leb, leb→le, leb→lt, Bool-cases, Bytes, length, take,
  length-append, take_all, map_option, ℕ, zero, suc, ◌+◌, ◌*◌, ◌/◌, ◌%◌, ◌≤◌, ◌<◌, ◌≡◌, refl, sym,
  ap, ◌∙◌, ◌⊎◌, inl, inr, true, false, Option, none, some, List, [], ◌∷◌, ◌++◌, append-nil,
  append_assoc, arith,
}
use aegiuw.Cursor.{pure, lift, ◌>>=◌, read_slice}
use aegiuw.Cursor.Reading.{at, new-at, remaining-at, read_u8-at, read_u16-at, read_slice-at}
use aegiuw.Sni.Types.{max_handshake_bytes, content_type_handshake, max_record_fragment}
use aegiuw.Sni.Wire.{wrap_record}
use aegiuw.Sni.Reassembly.{
  handshake_total, Buffer, more, done, accumulate, complete, expect_total, read_record,
  reassemble_loop, reassemble_handshake_owned, empty_buffer,
}
use aegiuw.Sni.Reassembly.Totals.{IsWhole, Waits, handshake_total_bounds, handshake_total-append}

-- The fragments in order, each in a record of its own.
unfoldable pub records_of : List Bytes → Bytes
unfolding wrap_record
records_of [] = []
records_of (f ∷ fs) = wrap_record content_type_handshake f ++ records_of fs

-- The fragments put together.
abbrev pub joined : List Bytes → Bytes
joined [] = []
joined (f ∷ fs) = f ++ joined fs

-- Each fragment fits in a record; a fragment may be empty.
abbrev pub FitRecords : List Bytes → Type 0
FitRecords [] = Unit
FitRecords (f ∷ fs) = (length f ≤ max_record_fragment) × FitRecords fs

-- What is left of a round once the length of its fragment is known.
read_fragment-at :
    (b : Buffer) (pre f rest : Bytes)
    → (if length f == 0
          then pure (more b)
          else (read_slice (length f) >>= λ s. lift (accumulate b s)))
        (at pre (f ++ rest))
      ≡ (if length f == 0
          then some (more b, at (pre ++ f) rest)
          else map_option (λ r. (r, at (pre ++ f) rest)) (accumulate b f))
read_fragment-at b pre [] rest = rw append-nil refl
read_fragment-at b pre (x ∷ f) rest =
    let full : (suc (length f) == 0) ≡ false = ground arith in
    rw (full, read_slice-at pre (x ∷ f) rest (suc (length f)) refl) refl

-- A round over the record of one fragment.
read_record-wrap :
    (b : Buffer) (pre f rest : Bytes)
    → length f ≤ max_record_fragment
    → (pre' : Bytes) × (read_record b (at pre (wrap_record content_type_handshake f ++ rest)) ≡ (
        if length f == 0
        then some (more b, at pre' rest)
        else map_option (λ r. (r, at pre' rest)) (accumulate b f)))
unfolding read_record wrap_record
read_record-wrap b pre f rest h =
    let n = length f in
    let lo = n % 256 in
    let hi = n % 65536 / 256 in
    let num : hi * 256 + lo ≡ n = omega arith in
    let pre1 = pre ++ 22 ∷ [] in
    let pre2 = pre1 ++ 0x03 ∷ 0x01 ∷ [] in
    let pre3 = pre2 ++ hi ∷ lo ∷ [] in
    (
      pre3 ++ f,
      rw
          (
            read_u8-at pre 22 (0x03 ∷ 0x01 ∷ hi ∷ lo ∷ (f ++ rest)),
            read_u16-at pre1 (hi ∷ lo ∷ (f ++ rest)) 0x03 0x01,
            read_u16-at pre2 (f ++ rest) hi lo,
            num,
            le→leb n max_record_fragment h,
          )
          (read_fragment-at b pre3 f rest),
    )

module _ (h : Bytes) (whole : IsWhole h) where
  -- Once a prefix of the message has its header, the length it announces is that of the message.
  handshake_total-prefix :
      (b r : Bytes) → b ++ r ≡ h → 4 ≤ length b → handshake_total b ≡ some (length h)
  handshake_total-prefix b r e four =
      sym (handshake_total-append b r four) ∙ ap handshake_total e ∙ whole

  expect_total-prefix :
      (o : Option ℕ) (b f r : Bytes)
      → Waits o b
      → (b ++ f) ++ r ≡ h
      → expect_total o (b ++ f) ≡ some (if leb 4 (length (b ++ f)) then some (length h) else none)
  unfolding expect_total
  expect_total-prefix none b f r w e = elim (Bool-cases (leb 4 (length (b ++ f)))) [
    | inl y ↦ rw (y, handshake_total-prefix (b ++ f) r e (leb→le 4 (length (b ++ f)) y)) refl
    | inr x ↦ rw x refl
  ]
  expect_total-prefix (some n) b f r (k, _) e =
      let (_, _, four) = handshake_total_bounds b k in
      let four' : leb 4 (length (b ++ f)) ≡ true =
        le→leb 4 (length (b ++ f)) (omega (arith, length-append b f)) in
      let known = handshake_total-prefix b (f ++ r) (sym (append_assoc b f r) ∙ e) four in
      rw four' (ap some (sym k ∙ known))

  full-prefix : (b r : Bytes) → b ++ r ≡ h → length h ≤ length b → take (length h) b ≡ h
  full-prefix b [] e le =
      let same : b ≡ h = sym (append-nil b) ∙ e in
      take_all (length h) b (omega (arith, ap length same)) ∙ same
  full-prefix b (x ∷ r) e le = absurd (omega (arith, ap length e, length-append b (x ∷ r)))

  -- A round over a fragment of the message ends with the message or with a longer prefix of it.
  abbrev Goes : Buffer → Bytes → Type 0
  Goes b f =
      (accumulate b f ≡ some (done h))
      ⊎ ((b' : Buffer) × (accumulate b f ≡ some (more b'))
          × (b'.bytes ≡ b.bytes ++ f)
          × Waits b'.expected_total b'.bytes
          × (length (b.bytes ++ f) < length h))

  accumulate-Goes :
      (b : Buffer) (f r : Bytes)
      → Waits b.expected_total b.bytes
      → (b.bytes ++ f) ++ r ≡ h
      → Goes b f
  unfolding accumulate complete
  accumulate-Goes b f r w e =
      let buf = b.bytes ++ f in
      let (four, small, _) = handshake_total_bounds h whole in
      let within_h : length buf ≤ length h = omega (arith, ap length e, length-append buf r) in
      let cap : ltb max_handshake_bytes (length buf) ≡ false = ground arith in
      rw (cap, expect_total-prefix b.expected_total b.bytes f r w e)
        (elim (Bool-cases (leb 4 (length buf))) [
          | inr x ↦
              let short = leb→lt 4 (length buf) x in
              rw x (
                inr (record { bytes = buf; expected_total = none }, refl, refl, short, omega arith))
          | inl y ↦ rw y (elim (Bool-cases (leb (length h) (length buf))) [
            | inl z ↦ rw z (inl (rw (full-prefix buf r e (leb→le (length h) (length buf) z))))
            | inr z ↦
                let lt = leb→lt (length h) (length buf) z in
                let known = handshake_total-prefix buf r e (leb→le 4 (length buf) y) in
                rw z (
                  inr (
                    record { bytes = buf; expected_total = some (length h) },
                    refl,
                    refl,
                    (known, lt),
                    lt,
                  ))
          ])
        ])

  -- The loop from the middle: what the buffer lacks is in the records to come.
  loop-fragments :
      (fs : List Bytes) (fuel : ℕ) (b : Buffer) (pre rest : Bytes)
      → FitRecords fs
      → Waits b.expected_total b.bytes
      → length b.bytes < length h
      → b.bytes ++ joined fs ≡ h
      → length (records_of fs ++ rest) < fuel
      → reassemble_loop fuel b (at pre (records_of fs ++ rest)) ≡ some h
  unfolding reassemble_loop records_of
  loop-fragments [] fuel b pre rest fit w lt e enough =
      absurd (omega (arith, ap length e, length-append b.bytes []))
  loop-fragments (f ∷ fs) zero b pre rest fit w lt e enough = absurd (omega arith)
  loop-fragments ([] ∷ fs) (suc fuel) b pre rest fit w lt e enough =
      let (pre', step) = read_record-wrap b pre [] (records_of fs ++ rest) fit.0 in
      let some_left : ltb 0
            (length (wrap_record content_type_handshake [] ++ (records_of fs ++ rest)))
          ≡ true =
        ground arith in
      rw
        (
          remaining-at pre (wrap_record content_type_handshake [] ++ (records_of fs ++ rest)),
          some_left,
          step,
        )
        (loop-fragments fs fuel b pre' rest fit.1 w lt e (omega arith))
  loop-fragments ((x ∷ f) ∷ fs) (suc fuel) b pre rest fit w lt e enough =
      let f' = x ∷ f in
      let tail = records_of fs ++ rest in
      let assoc = append_assoc (wrap_record content_type_handshake f') (records_of fs) rest in
      let (pre', step) = read_record-wrap b pre f' tail fit.0 in
      let e' = append_assoc b.bytes f' (joined fs) ∙ e in
      let full : (length f' == 0) ≡ false = ground arith in
      let some_left : ltb 0 (length (wrap_record content_type_handshake f' ++ tail)) ≡ true =
        ground arith in
      rw assoc (
        rw (remaining-at pre (wrap_record content_type_handshake f' ++ tail), some_left, step, full)
          (elim (accumulate-Goes b f' (joined fs) w e') [
            | inl last ↦ rw last refl
            | inr (b', next, same, w', lt') ↦ rw next (
                loop-fragments fs fuel b' pre' rest fit.1 w' (rw same lt') (rw same e')
                  (omega (arith, ap length (sym assoc), length-append f' tail)))
          ]))

-- A message that is as long as its header announces, cut into fragments in any way, empty ones among
-- them, each of which fits in a record, comes back whole, whatever bytes follow its records.
pub reassemble_handshake_owned-records_of :
    (fs : List Bytes) (rest : Bytes)
    → FitRecords fs
    → IsWhole (joined fs)
    → reassemble_handshake_owned (records_of fs ++ rest) ≡ some (joined fs)
unfolding reassemble_handshake_owned
reassemble_handshake_owned-records_of fs rest fit whole =
    let (_, _, four) = handshake_total_bounds (joined fs) whole in
    rw (new-at (records_of fs ++ rest)) (
      loop-fragments (joined fs) whole fs _ empty_buffer [] rest fit (omega arith) (omega arith)
        refl (omega arith))
