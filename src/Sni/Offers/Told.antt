-- ===== src/Sni/Offers/Told.antt =====
-- What the metadata say of a hello by what it offers, and that the scan finds it.
use aegiuw.Prelude.{
  ◌==◌, if◌then◌else◌, Bool-cases, Bytes, AllOk, map_option, ℕ, ◌≡◌, refl, sym, ap, ◌∙◌, subst, ◌≢◌,
  inl, inr, Bool, true, false, ◌||◌, Option, none, some, List, [], ◌∷◌, ◌++◌, map, append-nil,
  append_assoc, arith,
}
use aegiuw.Sni.Types.{ClientHelloMetadata, ext_pre_shared_key}
use aegiuw.Sni.Handshake.{Scan, contains, note_type, handle_extension, initial_scan, publish_host}
use aegiuw.Sni.Handshake.Scanning.{scan_one, scan_list}
use aegiuw.Sni.Handshake.Invariant.{Distinct, PskLast, contains-concat}
use aegiuw.Sni.Offers.{
  Offer, server_name, encrypted_client_hello, pre_shared_key, alpn, supported_versions, key_share,
  early_data, compress_certificate, record_size_limit, signature_algorithms, supported_groups,
  ec_point_formats, unread, type_of, payload_of, on_wire, IsOffer,
}
use aegiuw.Sni.Offers.Settle.{settle, handle_extension-settle}

-- What the last offer of a kind holds; `start` where there is none.
abbrev pub last_of {ℓ} : {A : Type ℓ} → (Offer → Option A) → Option A → List Offer → Option A
last_of f start [] = start
last_of f start (o ∷ os) = last_of f (elim (f o) [ some a ↦ some a | none ↦ start ]) os

-- Whether an offer of a kind is there.
abbrev pub is_offered : (Offer → Bool) → Bool → List Offer → Bool
is_offered p start [] = start
is_offered p start (o ∷ os) = is_offered p (if p o then true else start) os

abbrev pub host_of : Offer → Option Bytes
host_of (server_name h) = some h
host_of _ = none

abbrev pub protocols_of : Offer → Option (List Bytes)
protocols_of (alpn ps) = some ps
protocols_of _ = none

abbrev pub versions_of : Offer → Option (List ℕ)
versions_of (supported_versions vs) = some vs
versions_of _ = none

abbrev pub shares_of : Offer → Option (List ℕ)
shares_of (key_share ss) = some (map (λ (group, _). group) ss)
shares_of _ = none

abbrev pub limit_of : Offer → Option ℕ
limit_of (record_size_limit n) = some n
limit_of _ = none

abbrev pub algorithms_of : Offer → Option (List ℕ)
algorithms_of (signature_algorithms ns) = some ns
algorithms_of _ = none

abbrev pub groups_of : Offer → Option (List ℕ)
groups_of (supported_groups ns) = some ns
groups_of _ = none

abbrev pub formats_of : Offer → Option Bytes
formats_of (ec_point_formats fs) = some fs
formats_of _ = none

abbrev pub is_ech : Offer → Bool
is_ech (encrypted_client_hello x) = true
is_ech _ = false

abbrev pub is_psk : Offer → Bool
is_psk (pre_shared_key x) = true
is_psk _ = false

abbrev pub is_early_data : Offer → Bool
is_early_data (early_data x) = true
is_early_data _ = false

abbrev pub is_compress : Offer → Bool
is_compress (compress_certificate x) = true
is_compress _ = false

-- The scan behind all offers, from any state.
settled : List Offer → Scan → Scan
settled os s = record {
  meta = record {
    host = s.meta.host;
    ech_present = is_offered is_ech s.meta.ech_present os;
    alpn_protocols = last_of protocols_of s.meta.alpn_protocols os;
    supported_versions = last_of versions_of s.meta.supported_versions os;
    key_share_groups = last_of shares_of s.meta.key_share_groups os;
    psk_present = is_offered is_psk s.meta.psk_present os;
    early_data_present = is_offered is_early_data s.meta.early_data_present os;
    compress_certificate_present = is_offered is_compress s.meta.compress_certificate_present os;
    record_size_limit = last_of limit_of s.meta.record_size_limit os;
    signature_algorithms = last_of algorithms_of s.meta.signature_algorithms os;
    supported_groups = last_of groups_of s.meta.supported_groups os;
    ec_point_formats = last_of formats_of s.meta.ec_point_formats os;
    extension_order = s.meta.extension_order ++ map type_of os;
    cipher_suites = s.meta.cipher_suites;
  };
  sni_host = last_of host_of s.sni_host os;
  psk_seen = is_offered is_psk s.psk_seen os;
}

-- The metadata of a hello: of every kind what was offered, and the name unless ECH hides it.
unfoldable pub told : List ℕ → List Offer → ClientHelloMetadata
unfolding type_of
told cipher_suites os = record {
  host = if is_offered is_ech false os then none else last_of host_of none os;
  ech_present = is_offered is_ech false os;
  alpn_protocols = last_of protocols_of none os;
  supported_versions = last_of versions_of none os;
  key_share_groups = last_of shares_of none os;
  psk_present = is_offered is_psk false os;
  early_data_present = is_offered is_early_data false os;
  compress_certificate_present = is_offered is_compress false os;
  record_size_limit = last_of limit_of none os;
  signature_algorithms = last_of algorithms_of none os;
  supported_groups = last_of groups_of none os;
  ec_point_formats = last_of formats_of none os;
  extension_order = map type_of os;
  cipher_suites = cipher_suites;
}

settled-cons :
    (o : Offer) (os : List Offer) (s : Scan)
    → IsOffer o
    → settled (o ∷ os) s ≡ settled os (settle o (note_type (type_of o) s))
unfolding settled settle note_type type_of
settled-cons (unread t x) os s k =
    let e : (t == ext_pre_shared_key) ≡ false = ground arith in
    rw (e, append_assoc s.meta.extension_order (t ∷ []) (map type_of os)) refl
settled-cons o os s k = rw append_assoc refl

-- None of the types has been seen.
abbrev Fresh : List ℕ → List ℕ → Type 0
Fresh order [] = Unit
Fresh order (t ∷ ts) = (contains t order ≡ false) × Fresh order ts

Fresh-concat :
    (order : List ℕ) (t : ℕ) (ts : List ℕ)
    → contains t ts ≡ false
    → Fresh order ts
    → Fresh (order ++ t ∷ []) ts
Fresh-concat order t [] n f = tt
Fresh-concat order t (x ∷ ts) n f =
    let here : (t == x) ≡ false = ground arith in
    let later : contains t ts ≡ false = ground arith in
    (rw (contains-concat x t order, f.0, here) refl, Fresh-concat order t ts later f.1)

scan_one-settle :
    (o : Offer) (s : Scan)
    → IsOffer o
    → s.psk_seen ≡ false
    → contains (type_of o) s.meta.extension_order ≡ false
    → scan_one s (on_wire o) ≡ some (settle o (note_type (type_of o) s))
unfolding scan_one
scan_one-settle o s k open_end new =
    let clear : (s.psk_seen || contains (type_of o) s.meta.extension_order) ≡ false =
      ground arith in
    ap
      (λ t.
        if t then none else handle_extension (type_of o) (payload_of o) (note_type (type_of o) s))
      clear
    ∙ handle_extension-settle o (note_type (type_of o) s) k

-- An offer leaves the mark of the key that comes last, and notes its type.
settle-open :
    (o : Offer) (s : Scan)
    → type_of o ≢ ext_pre_shared_key
    → ((settle o (note_type (type_of o) s)).psk_seen ≡ s.psk_seen)
      × ((settle o (note_type (type_of o) s)).meta.extension_order
          ≡ s.meta.extension_order ++ type_of o ∷ [])
unfolding settle note_type type_of
settle-open (pre_shared_key x) s n = absurd (n refl)
settle-open (unread t x) s n = ground arith
settle-open o s n = (refl, refl)

scan_list-settled :
    (os : List Offer) (s : Scan)
    → AllOk IsOffer os
    → Distinct (map type_of os)
    → PskLast (map type_of os)
    → Fresh s.meta.extension_order (map type_of os)
    → s.psk_seen ≡ false
    → scan_list s (map on_wire os) ≡ some (settled os s)
unfolding scan_list
scan_list-settled [] s k d p f n = unfold settled in rw append-nil refl
scan_list-settled (o ∷ []) s k d p f n =
    rw (scan_one-settle o s k.0 n f.0, settled-cons o [] s k.0)
      (unfold settled in rw append-nil refl)
scan_list-settled (o ∷ o' ∷ os) s k d p f n =
    let t = settle o (note_type (type_of o) s) in
    let kept = settle-open o s p.0 in
    rw (scan_one-settle o s k.0 n f.0, settled-cons o (o' ∷ os) s k.0)
      (scan_list-settled (o' ∷ os) t k.1 d.1 p.1
        (subst (λ order. Fresh order (map type_of (o' ∷ os))) (sym kept.1)
          (Fresh-concat s.meta.extension_order (type_of o) (map type_of (o' ∷ os)) d.0 f.1))
        (kept.0 ∙ n))

Fresh-nil : (ts : List ℕ) → Fresh [] ts
Fresh-nil [] = tt
Fresh-nil (t ∷ ts) = (refl, Fresh-nil ts)

publish_host-settled :
    (cipher_suites : List ℕ) (os : List Offer)
    → publish_host (settled os (initial_scan cipher_suites)) ≡ told cipher_suites os
unfolding publish_host settled told
publish_host-settled cipher_suites os = elim (Bool-cases (is_offered is_ech false os)) [
  | inl y ↦ rw y refl
  | inr z ↦ rw z refl
]

-- From the start of the scan it comes to what was offered.
pub scan_list-told :
    (cipher_suites : List ℕ) (os : List Offer)
    → AllOk IsOffer os
    → Distinct (map type_of os)
    → PskLast (map type_of os)
    → map_option publish_host (scan_list (initial_scan cipher_suites) (map on_wire os))
      ≡ some (told cipher_suites os)
scan_list-told cipher_suites os k d p =
    rw (scan_list-settled os (initial_scan cipher_suites) k d p (Fresh-nil (map type_of os)) refl)
      (ap some (publish_host-settled cipher_suites os))
