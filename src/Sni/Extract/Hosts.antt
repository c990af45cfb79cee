-- ===== src/Sni/Extract/Hosts.antt =====
-- What an outcome says of the bytes that it came from.
use aegiuw.Prelude.{
  ◌==◌, Bool-cases, Bytes, length, bind, unwrap_or, bind-eq-some, ℕ, ◌≡◌, refl, sym, ap, ◌∙◌, subst,
  ◌↔◌, ◌⊎◌, inl, inr, true, false, Option, none, some, some-injective, [], ◌∷◌, arith,
}
use aegiuw.Cursor.{◌>>=◌}
use aegiuw.Cursor.Reading.{new-at, read_u8-at, read_u8-at_end}
use aegiuw.Sni.Types.{
  ClientHelloMetadata, SniOutcome, cleartext, encrypted, not_found, malformed,
  ext_encrypted_client_hello, handshake_type_client_hello,
}
use aegiuw.Sni.ServerName.Valid.{IsHostName}
use aegiuw.Sni.Reassembly.{handshake_total, reassemble_handshake_owned, verify_handshake_type}
use aegiuw.Sni.Reassembly.Bounds.{reassemble_handshake_owned-IsWhole}
use aegiuw.Sni.Handshake.{contains, read_client_hello, parse_handshake_message_full}
use aegiuw.Sni.Handshake.Frame.{HostOk}
use aegiuw.Sni.Handshake.Invariant.{IsClean, parse_handshake_message_full-IsClean}
use aegiuw.Sni.Extract.Records.{extract_sni-eq, project}
use aegiuw.Sni.Extract.{
  classify, extract_sni, parse_handshake_message, eq_bytes, same_host, hrr_sni_consistent,
}

-- The metadata behind the outcome, if the bytes hold a hello.
pub hello_of : Bytes → Option ClientHelloMetadata
hello_of bytes = bind (reassemble_handshake_owned bytes) parse_handshake_message_full

pub extract_sni-hello_of : (bytes : Bytes) → extract_sni bytes ≡ project (hello_of bytes)
unfolding hello_of
extract_sni-hello_of = extract_sni-eq

hello_of-IsClean : (bytes : Bytes) {m : ClientHelloMetadata} → hello_of bytes ≡ some m → IsClean m
unfolding hello_of
hello_of-IsClean bytes e =
    let (h, p, q) = bind-eq-some (reassemble_handshake_owned bytes) _ e in
    parse_handshake_message_full-IsClean h q

-- What each outcome says of the metadata.
abbrev pub Says : SniOutcome → Option ClientHelloMetadata → Type 0
Says (cleartext h) o =
    (m : ClientHelloMetadata) × (o ≡ some m)
    × (m.host ≡ some h)
    × (contains ext_encrypted_client_hello m.extension_order ≡ false)
    × IsHostName h
Says encrypted o =
    (m : ClientHelloMetadata) × (o ≡ some m)
    × (contains ext_encrypted_client_hello m.extension_order ≡ true)
    × (m.host ≡ none)
Says not_found o =
    (m : ClientHelloMetadata) × (o ≡ some m)
    × (contains ext_encrypted_client_hello m.extension_order ≡ false)
    × (m.host ≡ none)
Says malformed o = o ≡ none

module _ (m : ClientHelloMetadata) where
  classify-ech : m.ech_present ≡ true → classify m ≡ encrypted
  unfolding classify
  classify-ech y = rw y refl

  classify-none : m.ech_present ≡ false → m.host ≡ none → classify m ≡ not_found
  unfolding classify
  classify-none n p = rw (n, p) refl

  classify-some : {h : Bytes} → m.ech_present ≡ false → m.host ≡ some h → classify m ≡ cleartext h
  unfolding classify
  classify-some n p = rw (n, p) refl

Says-project :
    (o : Option ClientHelloMetadata)
    → ((m : ClientHelloMetadata) → o ≡ some m → IsClean m)
    → Says (project o) o
Says-project none k = refl
Says-project (some m) k = go (Bool-cases m.ech_present) m.host refl
  where
    v : IsClean m
    v = k m refl

    go :
        (m.ech_present ≡ true) ⊎ (m.ech_present ≡ false)
        → (h : Option Bytes) → m.host ≡ h
        → Says (project (some m)) (some m)
    go (inl y) h p =
        subst (λ o. Says o (some m)) (sym (classify-ech m y)) (m, refl, sym v.ech ∙ y, v.masked y)
    go (inr n) none p =
        subst (λ o. Says o (some m)) (sym (classify-none m n p)) (m, refl, sym v.ech ∙ n, p)
    go (inr n) (some h) p =
        subst (λ o. Says o (some m)) (sym (classify-some m n p))
          (m, refl, p, sym v.ech ∙ n, subst HostOk p v.host_ok)

-- The outcome tells the truth of the reassembled message, for all bytes: a host in clear is the host
-- of a parsed hello with no ECH extension and is a host name, `encrypted` is said of a parsed hello
-- with one, which publishes no host, `not_found` of a parsed hello with neither an ECH extension nor a
-- host, and `malformed` of bytes that hold no hello that parses.
pub extract_sni-Says : (bytes : Bytes) → Says (extract_sni bytes) (hello_of bytes)
unfolding hello_of
extract_sni-Says bytes =
    rw (extract_sni-eq bytes) (Says-project (hello_of bytes) (λ m. hello_of-IsClean bytes))

wrong_type :
    (b : ℕ) (s : Bytes)
    → (b == handshake_type_client_hello) ≡ false
    → parse_handshake_message_full (b ∷ s) ≡ none
unfolding parse_handshake_message_full read_client_hello
wrong_type b s n =
    rw (new-at (b ∷ s), parse_handshake_message_full, read_client_hello)
      (rw (read_u8-at [] b s, ◌>>=◌) (rw n refl))

no_bytes : parse_handshake_message_full [] ≡ none
unfolding parse_handshake_message_full read_client_hello
no_bytes =
    rw (new-at [], parse_handshake_message_full, read_client_hello) (rw (read_u8-at_end []) refl)

message-project :
    (h : Bytes)
    → unwrap_or malformed (parse_handshake_message h) ≡ project (parse_handshake_message_full h)
unfolding parse_handshake_message
message-project [] = sym (ap project no_bytes)
message-project (b ∷ s) = elim (Bool-cases (b == handshake_type_client_hello)) [
  | inl y ↦ rw y (go (parse_handshake_message_full (b ∷ s)))
  | inr n ↦ rw n (sym (ap project (wrong_type b s n)))
]
  where
    go :
        (o : Option ClientHelloMetadata)
        → unwrap_or malformed (elim o [ none ↦ some malformed | some m ↦ some (classify m) ])
          ≡ project o
    go none = refl
    go (some m) = refl

-- For all bytes the outcome is that of the message-level entry point over the reassembled message,
-- and `malformed` where nothing is reassembled or the message is empty.
pub extract_sni-parse_handshake_message :
    (bytes : Bytes)
    → extract_sni bytes
      ≡ unwrap_or malformed (bind (reassemble_handshake_owned bytes) parse_handshake_message)
extract_sni-parse_handshake_message bytes =
    rw (extract_sni-eq bytes) (go (reassemble_handshake_owned bytes))
  where
    go :
        (o : Option Bytes)
        → project (bind o parse_handshake_message_full)
          ≡ unwrap_or malformed (bind o parse_handshake_message)
    go none = refl
    go (some h) = sym (message-project h)

pub eq_bytes_iff : (s t : Bytes) → (eq_bytes s t ≡ true) ↔ (s ≡ t)
unfolding eq_bytes
eq_bytes_iff (a ∷ s) (b ∷ t) = ground (arith, eq_bytes_iff s t)
eq_bytes_iff _ _ = ground arith

-- The two hellos around a retry are found consistent exactly when both show the same host in clear.
pub hrr_sni_consistent_iff :
    (first second : Bytes)
    → (hrr_sni_consistent first second ≡ some true)
      ↔ ((h : Bytes) × (extract_sni first ≡ cleartext h) × (extract_sni second ≡ cleartext h))
unfolding hrr_sni_consistent same_host
hrr_sni_consistent_iff first second = (
  go (extract_sni first) (extract_sni second),
  λ (h, p, q). rw (p, q) (ap some ((eq_bytes_iff h h).1 refl)),
)
  where
    go :
        (a b : SniOutcome)
        → same_host a b ≡ some true
        → (h : Bytes) × (a ≡ cleartext h) × (b ≡ cleartext h)
    go (cleartext s) (cleartext t) e =
        (s, refl, ap cleartext (sym ((eq_bytes_iff s t).0 (some-injective _ _ e))))
    go _ _ e = absurd (cc)

verify-whole :
    (h : Bytes) (n : ℕ) {m : ClientHelloMetadata}
    → handshake_total h ≡ some n
    → parse_handshake_message_full h ≡ some m
    → verify_handshake_type h ≡ true
unfolding handshake_total verify_handshake_type
verify-whole (t ∷ hi ∷ mi ∷ lo ∷ rest) n w q =
    elim (Bool-cases (t == handshake_type_client_hello)) [
      | inl y ↦ rw y (ground arith)
      | inr x ↦ absurd (cc (wrong_type t (hi ∷ mi ∷ lo ∷ rest) x))
    ]
verify-whole _ n w q = absurd (cc)

-- The cheap check of the first four bytes passes for every message that is reassembled from records
-- and then parses.
pub verify_handshake_type-of_hello :
    (records h : Bytes) {m : ClientHelloMetadata}
    → reassemble_handshake_owned records ≡ some h
    → parse_handshake_message_full h ≡ some m
    → verify_handshake_type h ≡ true
verify_handshake_type-of_hello records h p q =
    verify-whole h (length h) (reassemble_handshake_owned-IsWhole records p).0 q
