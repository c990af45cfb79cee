-- ===== src/Sni/Handshake/Scanning.antt =====
-- The scan over the bytes of the extensions block is a fold over the extensions that it holds.
use aegiuw.Prelude.{
  leb, if◌then◌else◌, le→leb, Bool-cases, Bytes, length, length-append, bind, map_option, ℕ, zero,
  suc, ◌+◌, ◌*◌, ◌/◌, ◌%◌, ◌<◌, ◌≡◌, refl, ap, inl, inr, true, false, ◌||◌, Option, none, some,
  List, [], ◌∷◌, ◌++◌, append_assoc, arith,
}
use aegiuw.Cursor.{Cursor}
use aegiuw.Cursor.Reading.{at, new-at, remaining-at, read_u16-at, read_u16_prefixed-at}
use aegiuw.Cursor.Loop.{while_remaining}
use aegiuw.Sni.Wire.{u16_bytes, build_extension}
use aegiuw.Sni.Handshake.{
  Scan, contains, note_type, handle_extension, scan_extension, scan_extensions,
}

-- What the fold does with one extension: nothing may follow a `pre_shared_key`, no type may come
-- twice.
unfoldable pub scan_one : Scan → ℕ × Bytes → Option Scan
scan_one s (ext_type, ext) =
    if s.psk_seen || contains ext_type s.meta.extension_order
    then none
    else handle_extension ext_type ext (note_type ext_type s)

unfoldable pub scan_list : Scan → List (ℕ × Bytes) → Option Scan
scan_list s [] = some s
scan_list s (e ∷ es) = bind (scan_one s e) (λ t. scan_list t es)

-- The extensions in a row.
unfoldable pub encode_extensions : List (ℕ × Bytes) → Bytes
unfolding build_extension
encode_extensions [] = []
encode_extensions ((ext_type, ext) ∷ es) = build_extension ext_type ext ++ encode_extensions es

-- Each type and each length is a `u16`.
abbrev pub FitU16 : List (ℕ × Bytes) → Type 0
FitU16 [] = Unit
FitU16 ((ext_type, ext) ∷ es) = (ext_type < 65536) × (length ext < 65536) × FitU16 es

scan_extension-at :
    (s : Scan) (pre : Bytes) (t : ℕ) (x rest : Bytes)
    → t < 65536
    → length x < 65536
    → (pre' : Bytes) × (scan_extension s (at pre (build_extension t x ++ rest))
        ≡ map_option (λ u. (u, at pre' rest)) (scan_one s (t, x)))
unfolding scan_extension build_extension scan_one u16_bytes
scan_extension-at s pre t x rest ht hx =
    let thi = t % 65536 / 256 in
    let tlo = t % 256 in
    let n = length x in
    let hi = n % 65536 / 256 in
    let lo = n % 256 in
    let pre1 = pre ++ thi ∷ tlo ∷ [] in
    let num : thi * 256 + tlo ≡ t = omega arith in
    (
      (pre1 ++ hi ∷ lo ∷ []) ++ x,
      elim (Bool-cases s.psk_seen) [
        | inl y ↦ rw y refl
        | inr open_end ↦
            rw
              (
                open_end,
                read_u16-at pre (hi ∷ lo ∷ (x ++ rest)) thi tlo,
                num,
                read_u16_prefixed-at pre1 rest hi lo x (omega arith),
              )
              (elim (Bool-cases (contains t s.meta.extension_order)) [
                | inl y ↦ rw y refl
                | inr z ↦ rw z refl
              ])
      ],
    )

length-build_extension :
    (t : ℕ) (x rest : Bytes) → length (build_extension t x ++ rest) ≡ 4 + (length x + length rest)
unfolding build_extension u16_bytes
length-build_extension t x rest = omega (arith, length-append x rest)

loop-encode :
    (es : List (ℕ × Bytes)) (fuel : ℕ) (s : Scan) (pre tail : Bytes)
    → FitU16 es
    → length tail < 4
    → length (encode_extensions es ++ tail) < fuel
    → map_option
        (λ (t, _). t)
        (while_remaining fuel 4 scan_extension s (at pre (encode_extensions es ++ tail)))
      ≡ scan_list s es
unfolding while_remaining encode_extensions scan_list
loop-encode es zero s pre tail fit short enough = absurd (omega arith)
loop-encode [] (suc fuel) s pre tail fit short enough =
    let stop : leb 4 (length tail) ≡ false = ground arith in rw (remaining-at pre tail, stop) refl
loop-encode ((t, x) ∷ es) (suc fuel) s pre tail fit short enough =
    let rest = encode_extensions es ++ tail in
    let size = length-build_extension t x rest in
    let assoc = append_assoc (build_extension t x) (encode_extensions es) tail in
    let (pre', step) = scan_extension-at s pre t x rest fit.0 fit.1 in
    let more : leb 4 (length (build_extension t x ++ rest)) ≡ true =
      le→leb 4 (length (build_extension t x ++ rest)) (omega arith) in
    rw assoc (
      rw (remaining-at pre (build_extension t x ++ rest), more, step)
        (go (scan_one s (t, x)) (at pre' rest)
          (λ u. loop-encode es fuel u pre' tail fit.2 short (omega (arith, ap length assoc)))))
  where
    go :
        (o : Option Scan) (c : Cursor)
        → ((u : Scan)
            → map_option (λ (t, _). t) (while_remaining fuel 4 scan_extension u c) ≡ scan_list u es)
        → map_option
            (λ (t, _). t)
            (bind
              (map_option (λ u. (u, c)) o)
              (λ (u, d). while_remaining fuel 4 scan_extension u d))
          ≡ bind o (λ u. scan_list u es)
    go none c k = refl
    go (some u) c k = k u

-- For extensions whose types and lengths fit in two bytes the scan over their bytes, from any state,
-- is the fold over their list, refusals included; up to three bytes behind the last one are passed
-- over.
pub scan_extensions-encode :
    (es : List (ℕ × Bytes)) (s : Scan) (tail : Bytes)
    → FitU16 es
    → length tail < 4
    → scan_extensions (encode_extensions es ++ tail) s ≡ scan_list s es
unfolding scan_extensions
scan_extensions-encode es s tail fit short =
    rw (new-at (encode_extensions es ++ tail)) (loop-encode es _ s [] tail fit short (omega arith))
