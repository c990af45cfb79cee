-- ===== src/Sni/Handshake/Frame.antt =====
-- What one arm of the `match` on the extension's type changes, and what it leaves alone.
use aegiuw.Prelude.{
  ◌==◌, if◌then◌else◌, ==_iff, Bool-cases, Bytes, ℕ, ◌≡◌, refl, subst, inl, inr, true, false,
  Option, none, some, some-injective, arith,
}
use aegiuw.Sni.Types.{
  ServerNameOutcome, host, skip, malformed, ext_server_name, ext_encrypted_client_hello,
}
use aegiuw.Sni.ServerName.{parse_server_name_extension}
use aegiuw.Sni.ServerName.Valid.{IsHostName, parse_server_name_extension-IsHostName}
use aegiuw.Sni.Handshake.{Scan, handle_server_name, handle_extension}

-- What the handler of one extension leaves alone, and what it does to the ECH mark.
pub record Frame (ext_type : ℕ) (s t : Scan) : Type 0 where
  pub order : t.meta.extension_order ≡ s.meta.extension_order
  pub seen : t.psk_seen ≡ s.psk_seen
  pub psk : t.meta.psk_present ≡ s.meta.psk_present
  pub ech :
      t.meta.ech_present
      ≡ (if ext_type == ext_encrypted_client_hello then true else s.meta.ech_present)
  pub published : t.meta.host ≡ s.meta.host

handle_server_name-Frame :
    (o : ServerNameOutcome) (s t : Scan)
    → handle_server_name o s ≡ some t
    → Frame ext_server_name s t
unfolding handle_server_name
handle_server_name-Frame (host h) s t e = ground arith
handle_server_name-Frame skip s t e = ground arith
handle_server_name-Frame malformed s t e = absurd (cc)

pub handle_extension-Frame :
    (ext_type : ℕ) (ext : Bytes) (s t : Scan)
    → handle_extension ext_type ext s ≡ some t
    → Frame ext_type s t
unfolding handle_extension
handle_extension-Frame ext_type ext s t e =
    ground (arith, handle_server_name-Frame (parse_server_name_extension ext) s t)

abbrev pub HostOk : Option Bytes → Type 0
HostOk none = Unit
HostOk (some h) = IsHostName h

handle_server_name-HostOk :
    (ext : Bytes) (o : ServerNameOutcome) (s t : Scan)
    → parse_server_name_extension ext ≡ o
    → HostOk s.sni_host
    → handle_server_name o s ≡ some t
    → HostOk t.sni_host
unfolding handle_server_name
handle_server_name-HostOk ext (host h) s t p k e =
    subst (λ u. HostOk u.sni_host) (some-injective _ _ e)
      (parse_server_name_extension-IsHostName ext p)
handle_server_name-HostOk ext skip s t p k e =
    subst (λ u. HostOk u.sni_host) (some-injective _ _ e) k
handle_server_name-HostOk ext malformed s t p k e = absurd (cc)

-- Another extension leaves the host that was found.
keeps_host :
    (ext_type : ℕ) (ext : Bytes) (s t : Scan)
    → (ext_type == ext_server_name) ≡ false
    → handle_extension ext_type ext s ≡ some t
    → t.sni_host ≡ s.sni_host
unfolding handle_extension
keeps_host ext_type ext s t n e = ground arith

at_server_name :
    (ext : Bytes) (s t : Scan)
    → handle_extension ext_server_name ext s ≡ some t
    → handle_server_name (parse_server_name_extension ext) s ≡ some t
unfolding handle_extension
at_server_name ext s t e = e

pub handle_extension-HostOk :
    (ext_type : ℕ) (ext : Bytes) (s t : Scan)
    → HostOk s.sni_host
    → handle_extension ext_type ext s ≡ some t
    → HostOk t.sni_host
handle_extension-HostOk ext_type ext s t k e = elim (Bool-cases (ext_type == ext_server_name)) [
  | inl y ↦
      let same = (==_iff ext_type ext_server_name).0 y in
      handle_server_name-HostOk ext (parse_server_name_extension ext) s t refl k
        (at_server_name ext s t (subst (λ n. handle_extension n ext s ≡ some t) same e))
  | inr n ↦ rw (keeps_host ext_type ext s t n e) k
]
