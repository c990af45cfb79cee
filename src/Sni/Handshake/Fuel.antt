-- ===== src/Sni/Handshake/Fuel.antt =====
-- The loop over the extensions ends by itself.
use aegiuw.Prelude.{Bytes, length, map_option, ℕ, suc, ◌<◌, ◌≡◌, ap, not, arith}
use aegiuw.Cursor.{guard, new, remaining, read_u16, read_u16_prefixed}
use aegiuw.Cursor.Loop.{
  while_remaining, while_remaining_fuel, Advances, >>=-Advances, read_u16-Advances,
  read_u16_prefixed-Advances, lift-Advances, guard-Advances,
}
use aegiuw.Sni.Handshake.{
  Scan, contains, note_type, handle_extension, scan_extension, scan_extensions,
}

scan_extension-Advances : (s : Scan) → Advances 4 (scan_extension s)
unfolding scan_extension
scan_extension-Advances s = >>=-Advances 0 4 (guard (not s.psk_seen)) _ (guard-Advances _) λ _.
    >>=-Advances 2 2 read_u16 _ read_u16-Advances λ ext_type.
      >>=-Advances 2 0 read_u16_prefixed _ read_u16_prefixed-Advances λ ext.
        >>=-Advances 0 0 (guard (not (contains ext_type s.meta.extension_order))) _
          (guard-Advances _)
          λ _. lift-Advances (handle_extension ext_type ext (note_type ext_type s))

scan_extension-Advances_one : (s : Scan) → Advances 1 (scan_extension s)
scan_extension-Advances_one s c t c' e =
    let (b, p) = scan_extension-Advances s c t c' e in (b, omega arith)

-- With any number of rounds above the length of the extensions block the loop gives the same: it
-- ends by itself, and is not cut short.
pub scan_extensions_fuel :
    (extensions : Bytes) (s : Scan) (fuel : ℕ)
    → length extensions < fuel
    → map_option (λ (t, _). t) (while_remaining fuel 4 scan_extension s (new extensions))
      ≡ scan_extensions extensions s
unfolding scan_extensions
scan_extensions_fuel extensions s fuel h =
    let left : remaining (new extensions) ≡ length extensions =
      unfold new remaining in omega arith in
    ap (map_option (λ (t, _). t)) (
      while_remaining_fuel 4 scan_extension (omega arith) scan_extension-Advances_one fuel
        (suc (length extensions)) s (new extensions) (omega arith) (omega arith))
