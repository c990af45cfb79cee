-- ===== src/Sni/Handshake/Invariant.antt =====
-- What holds of every hello that `parse_handshake_message_full` accepts.
use aegiuw.Prelude.{
  ◌==◌, if◌then◌else◌, Bool-cases, Bytes, length, bind-eq-some, map_option-eq-some, ℕ, suc, ◌≡◌,
  refl, sym, ap, ◌∙◌, subst, ◌≢◌, inl, inr, true, false, not, ◌||◌, none, some, List, [], ◌∷◌, ◌++◌,
  arith,
}
use aegiuw.Cursor.{Cursor, new, read_u16, read_u16_prefixed}
use aegiuw.Cursor.Loop.{while_remaining, while_remaining_inv}
use aegiuw.Cursor.Ensures.{guard-eq-some}
use aegiuw.Sni.Types.{ClientHelloMetadata, ext_encrypted_client_hello, ext_pre_shared_key}
use aegiuw.Sni.Handshake.{
  Scan, contains, note_type, handle_extension, scan_extension, scan_extensions, initial_scan,
  publish_host, read_client_hello, parse_handshake_message_full,
}
use aegiuw.Sni.Handshake.Frame.{HostOk, handle_extension-Frame, handle_extension-HostOk}

-- No type twice, and nothing behind a `pre_shared_key`.
abbrev pub Distinct : List ℕ → Type 0
Distinct [] = Unit
Distinct (x ∷ xs) = (contains x xs ≡ false) × Distinct xs

abbrev pub PskLast : List ℕ → Type 0
PskLast [] = Unit
PskLast (x ∷ []) = Unit
PskLast (x ∷ y ∷ ys) = (x ≢ ext_pre_shared_key) × PskLast (y ∷ ys)

pub contains-concat :
    (x t : ℕ) (xs : List ℕ) → contains x (xs ++ t ∷ []) ≡ (contains x xs || (t == x))
contains-concat x t [] = elim (Bool-cases (t == x)) [ inl y ↦ rw y refl | inr n ↦ rw n refl ]
contains-concat x t (y ∷ xs) = elim (Bool-cases (y == x)) [
  | inl e ↦ rw e refl
  | inr n ↦ rw n (contains-concat x t xs)
]

Distinct-concat :
    (t : ℕ) (xs : List ℕ) → contains t xs ≡ false → Distinct xs → Distinct (xs ++ t ∷ [])
Distinct-concat t [] h d = (refl, tt)
Distinct-concat t (x ∷ xs) h d =
    let here : (t == x) ≡ false = ground arith in
    let rest : contains t xs ≡ false = ground arith in
    (rw (contains-concat x t xs, d.0, here) refl, Distinct-concat t xs rest d.1)

PskLast-concat :
    (t : ℕ) (xs : List ℕ) → contains ext_pre_shared_key xs ≡ false → PskLast (xs ++ t ∷ [])
PskLast-concat t [] h = tt
PskLast-concat t (x ∷ []) h = (ground arith, tt)
PskLast-concat t (x ∷ y ∷ xs) h =
    let rest : contains ext_pre_shared_key (y ∷ xs) ≡ false = ground arith in
    (ground arith, PskLast-concat t (y ∷ xs) rest)

-- The book-keeping of the scan.
pub record ScanInv (s : Scan) : Type 0 where
  pub distinct : Distinct s.meta.extension_order
  pub psk_last : PskLast s.meta.extension_order
  pub psk : s.meta.psk_present ≡ contains ext_pre_shared_key s.meta.extension_order
  pub seen : s.psk_seen ≡ s.meta.psk_present
  pub ech : s.meta.ech_present ≡ contains ext_encrypted_client_hello s.meta.extension_order
  pub host_ok : HostOk s.sni_host
  pub unpublished : s.meta.host ≡ none

pub initial-ScanInv : (cs : List ℕ) → ScanInv (initial_scan cs)
initial-ScanInv cs = record {
  distinct = tt;
  psk_last = tt;
  psk = refl;
  seen = refl;
  ech = refl;
  host_ok = tt;
  unpublished = refl;
}

record Noted (ext_type : ℕ) (s t : Scan) : Type 0 where
  order : t.meta.extension_order ≡ s.meta.extension_order ++ ext_type ∷ []
  psk : t.meta.psk_present ≡ (if ext_type == ext_pre_shared_key then true else s.meta.psk_present)
  seen : t.psk_seen ≡ (if ext_type == ext_pre_shared_key then true else s.psk_seen)
  ech : t.meta.ech_present ≡ s.meta.ech_present
  found : t.sni_host ≡ s.sni_host
  published : t.meta.host ≡ s.meta.host

note_type-Noted : (ext_type : ℕ) (s : Scan) → Noted ext_type s (note_type ext_type s)
unfolding note_type
note_type-Noted ext_type s = ground arith

-- One extension of a new type, where no `pre_shared_key` was seen.
pub scan_one-ScanInv :
    (ext_type : ℕ) (ext : Bytes) (s t : Scan)
    → ScanInv s
    → s.psk_seen ≡ false
    → contains ext_type s.meta.extension_order ≡ false
    → handle_extension ext_type ext (note_type ext_type s) ≡ some t
    → ScanInv t
scan_one-ScanInv ext_type ext s t v no_psk fresh e =
    let f = handle_extension-Frame ext_type ext (note_type ext_type s) t e in
    let g = note_type-Noted ext_type s in
    let order = f.order ∙ g.order in
    let none_before : contains ext_pre_shared_key s.meta.extension_order ≡ false =
      sym v.psk ∙ sym v.seen ∙ no_psk in
    record {
      distinct = rw order (Distinct-concat ext_type s.meta.extension_order fresh v.distinct);
      psk_last = rw order (PskLast-concat ext_type s.meta.extension_order none_before);
      psk =
          rw (order, contains-concat ext_pre_shared_key ext_type s.meta.extension_order)
            (f.psk ∙ g.psk ∙ ground (arith, v.psk));
      seen = f.seen ∙ g.seen ∙ ground (arith, v.seen, f.psk, g.psk);
      ech =
          rw (order, contains-concat ext_encrypted_client_hello ext_type s.meta.extension_order)
            (f.ech ∙ ground (arith, v.ech, g.ech));
      host_ok =
          handle_extension-HostOk ext_type ext (note_type ext_type s) t (rw g.found v.host_ok) e;
      unpublished = f.published ∙ g.published ∙ v.unpublished;
    }

scan_extension-ScanInv :
    (s t : Scan) (c c' : Cursor) → ScanInv s → scan_extension s c ≡ some (t, c') → ScanInv t
unfolding scan_extension
scan_extension-ScanInv s t c c' v e =
    let (no_psk, e1) = guard-eq-some (not s.psk_seen) _ c e in
    let ((ext_type, c1), p1, e2) = bind-eq-some (read_u16 c) _ e1 in
    let ((ext, c2), p2, e3) = bind-eq-some (read_u16_prefixed c1) _ e2 in
    let (fresh, e4) = guard-eq-some (not (contains ext_type s.meta.extension_order)) _ c2 e3 in
    let (u, p3, e5) =
      map_option-eq-some _ (handle_extension ext_type ext (note_type ext_type s)) e4 in
    subst ScanInv (ap (λ x. x.0) e5)
      (scan_one-ScanInv ext_type ext s u v (ground arith) (ground arith) p3)

-- The metadata of an accepted hello: no type comes twice, a `pre_shared_key` comes last, the marks
-- tell which extensions came, and a host is published if it is a host name and no ECH hides it.
pub record IsClean (m : ClientHelloMetadata) : Type 0 where
  pub distinct : Distinct m.extension_order
  pub psk_last : PskLast m.extension_order
  pub psk : m.psk_present ≡ contains ext_pre_shared_key m.extension_order
  pub ech : m.ech_present ≡ contains ext_encrypted_client_hello m.extension_order
  pub masked : m.ech_present ≡ true → m.host ≡ none
  pub host_ok : HostOk m.host

publish_host-IsClean : (s : Scan) → ScanInv s → IsClean (publish_host s)
unfolding publish_host
publish_host-IsClean s v = elim (Bool-cases s.meta.ech_present) [
  | inl y ↦ rw y (record {
    distinct = v.distinct;
    psk_last = v.psk_last;
    psk = v.psk;
    ech = sym y ∙ v.ech;
    masked = λ _. v.unpublished;
    host_ok = rw v.unpublished tt;
  })
  | inr n ↦ rw n (record {
    distinct = v.distinct;
    psk_last = v.psk_last;
    psk = v.psk;
    ech = sym n ∙ v.ech;
    masked = λ h. cc h;
    host_ok = v.host_ok;
  })
]

-- The metadata of every hello that is accepted: no extension type comes twice, none comes behind a
-- `pre_shared_key`, the marks for that one and for ECH tell whether the extension came, the host is
-- published only where ECH did not come, and a host that is published is a host name.
pub parse_handshake_message_full-IsClean :
    (handshake : Bytes) {m : ClientHelloMetadata}
    → parse_handshake_message_full handshake ≡ some m
    → IsClean m
unfolding parse_handshake_message_full scan_extensions
parse_handshake_message_full-IsClean handshake e =
    let (((cs, exts), c), p, e1) = bind-eq-some (read_client_hello (new handshake)) _ e in
    let (s, e2, e3) = map_option-eq-some publish_host (scan_extensions exts (initial_scan cs)) e1 in
    let ((u, d), e4, e5) =
      map_option-eq-some _
        (while_remaining (suc (length exts)) 4 scan_extension (initial_scan cs) (new exts)) e2 in
    let inv =
      while_remaining_inv 4 scan_extension ScanInv scan_extension-ScanInv _ _ _ u d
        (initial-ScanInv cs) e4 in
    subst IsClean e3 (publish_host-IsClean s (subst ScanInv e5 inv))
