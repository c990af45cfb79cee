-- ===== src/Sni/Extract/Stream.antt =====
-- The outcome and the metadata when more bytes follow.
use aegiuw.Sni.Types.{max_record_fragment, content_type_handshake}
use aegiuw.Sni.Wire.{u16_bytes, wrap_record}
use aegiuw.Sni.Reassembly.Costs.{reassemble_handshake_owned_cost}
use aegiuw.Sni.Reassembly.Fragments.{records_of, reassemble_handshake_owned-records_of}
use aegiuw.Sni.Reassembly.Totals.{IsWhole}
use aegiuw.Prelude.{
  ltb, leb, ◌==◌, if◌then◌else◌, Bool-cases, Bytes, length, take, drop, is_empty, take-append-drop,
  length-take, Option-cases, bind-eq-some, ℕ, zero, suc, ◌+◌, ◌-◌, ◌%◌, ◌≤◌, ◌<◌, ◌≡◌, refl, sym,
  ap, ◌∙◌, subst, ◌≢◌, inl, inr, not, ◌&&◌, some, some-injective, [], ◌∷◌, ◌++◌, append-nil, arith,
}
use aegiuw.Cursor.{
  new, read_u8, read_u16, read_u24, read_slice, read_u8_prefixed, read_u16_prefixed, guard,
}
use aegiuw.Cursor.Stable.{
  Stable, >>=-Stable, guard-Stable, pure-Stable, read_u8-Stable, read_u16-Stable, read_u24-Stable,
  read_slice-Stable, read_u8_prefixed-Stable, read_u16_prefixed-Stable,
}
use aegiuw.Sni.Types.{
  malformed, ClientHelloMetadata, handshake_type_client_hello, tls_legacy_version,
}
use aegiuw.Sni.Reassembly.{reassemble_handshake_owned}
use aegiuw.Sni.Reassembly.Stream.{reassemble_handshake_owned-append}
use aegiuw.Sni.Handshake.{contains, u16_chunks, read_client_hello, parse_handshake_message_full}
use aegiuw.Sni.Extract.{extract_sni}
use aegiuw.Sni.Extract.Records.{extract_sni-eq}

read_client_hello-Stable : Stable read_client_hello
unfolding read_client_hello
read_client_hello-Stable = >>=-Stable read_u8 _ read_u8-Stable λ handshake_type.
    >>=-Stable (guard (handshake_type == handshake_type_client_hello)) _ (guard-Stable _) λ _.
      >>=-Stable read_u24 _ read_u24-Stable λ body_length.
        >>=-Stable read_u16 _ read_u16-Stable λ version.
          >>=-Stable (guard (version == tls_legacy_version)) _ (guard-Stable _) λ _.
            >>=-Stable (read_slice 32) _ (read_slice-Stable 32) λ random.
              >>=-Stable read_u8_prefixed _ read_u8_prefixed-Stable λ session_id.
                >>=-Stable (guard (leb (length session_id) 32)) _ (guard-Stable _) λ _.
                  >>=-Stable read_u16_prefixed _ read_u16_prefixed-Stable λ suites.
                    >>=-Stable (guard (not (is_empty suites) && length suites % 2 == 0)) _
                      (guard-Stable _)
                      λ _. >>=-Stable read_u8_prefixed _ read_u8_prefixed-Stable λ compression.
                        >>=-Stable (guard (contains 0 compression)) _ (guard-Stable _) λ _.
                          >>=-Stable read_u16_prefixed _ read_u16_prefixed-Stable
                            λ extensions. pure-Stable (u16_chunks suites, extensions)

-- Bytes behind the extensions block of a message that parses are passed over.
pub parse_handshake_message_full-append :
    (handshake s : Bytes) {m : ClientHelloMetadata}
    → parse_handshake_message_full handshake ≡ some m
    → parse_handshake_message_full (handshake ++ s) ≡ some m
unfolding parse_handshake_message_full new
parse_handshake_message_full-append handshake s e =
    let ((r, c), p, q) = bind-eq-some (read_client_hello (new handshake)) _ e in
    rw (read_client_hello-Stable s (new handshake) r c p) q

-- An outcome other than `malformed` is final: more bytes of the connection never change it.
pub extract_sni-append :
    (bytes s : Bytes) → extract_sni bytes ≢ malformed → extract_sni (bytes ++ s) ≡ extract_sni bytes
extract_sni-append bytes s n = elim (Option-cases (reassemble_handshake_owned bytes)) [
  | inl e ↦ absurd (n (extract_sni-eq bytes ∙ rw e refl))
  | inr (h, e) ↦
      extract_sni-eq (bytes ++ s)
      ∙ rw (reassemble_handshake_owned-append bytes s e, extract_sni-eq bytes, e) refl
]

take-append_ge :
    (n : ℕ) (xs ys : Bytes) → length xs ≤ n → take n (xs ++ ys) ≡ xs ++ take (n - length xs) ys
take-append_ge n [] ys h = ap (λ k. take k ys) (omega arith)
take-append_ge zero (x ∷ xs) ys h = absurd (omega arith)
take-append_ge (suc n) (x ∷ xs) ys h =
    ap (λ s. x ∷ s) (take-append_ge n xs ys (omega arith) ∙ ap (λ k. xs ++ take k ys) (omega arith))

length-wrap_record : (h : Bytes) → length (wrap_record content_type_handshake h) ≡ 5 + length h
unfolding wrap_record u16_bytes
length-wrap_record h = omega arith

module _ (h : Bytes) where
  reassemble_handshake_owned-wrap_record :
      (rest : Bytes)
      → length h ≤ max_record_fragment
      → IsWhole h
      → reassemble_handshake_owned (wrap_record content_type_handshake h ++ rest) ≡ some h
  unfolding records_of
  reassemble_handshake_owned-wrap_record rest fit whole =
      let one_record = append-nil (wrap_record content_type_handshake h) in
      let message = append-nil h in
      let read =
        reassemble_handshake_owned-records_of (h ∷ []) rest (fit, tt)
          (subst IsWhole (sym message) whole) in
      ap (λ r. reassemble_handshake_owned (r ++ rest)) (sym one_record) ∙ read ∙ ap some message

  -- Bytes behind the record do not count.
  extract_sni-wrap_record :
      (rest : Bytes)
      → length h ≤ max_record_fragment
      → IsWhole h
      → extract_sni (wrap_record content_type_handshake h ++ rest)
        ≡ extract_sni (wrap_record content_type_handshake h)
  extract_sni-wrap_record rest fit whole =
      let w = wrap_record content_type_handshake h in
      let alone =
        ap reassemble_handshake_owned (sym (append-nil w))
        ∙ reassemble_handshake_owned-wrap_record [] fit whole in
      extract_sni-eq (w ++ rest)
      ∙ rw (reassemble_handshake_owned-wrap_record rest fit whole, extract_sni-eq w, alone) refl

  -- A record that is not all there gives nothing.
  extract_sni-missing :
      (rest : Bytes) (n : ℕ)
      → length h ≤ max_record_fragment
      → IsWhole h
      → n < 5 + length h
      → extract_sni (take n (wrap_record content_type_handshake h ++ rest)) ≡ malformed
  extract_sni-missing rest n fit whole lt =
      let s = wrap_record content_type_handshake h ++ rest in
      elim (Option-cases (reassemble_handshake_owned (take n s))) [
        | inl e ↦ extract_sni-eq (take n s) ∙ rw e refl
        | inr (x, e) ↦
            let later = reassemble_handshake_owned-append (take n s) (drop n s) e in
            let full = ap reassemble_handshake_owned (sym (take-append-drop n s)) ∙ later in
            let same : some x ≡ some h =
              sym full ∙ reassemble_handshake_owned-wrap_record rest fit whole in
            let cost = reassemble_handshake_owned_cost (take n s) x e in
            absurd (omega (arith, cost, length-take n s, ap length (some-injective _ _ same)))
      ]

-- A connection that sends a whole message in one record, and then anything: as long as a byte of the
-- record is missing the outcome is `malformed`, and from then on it is the outcome of the record.
pub extract_sni-take :
    (h rest : Bytes) (n : ℕ)
    → length h ≤ max_record_fragment
    → IsWhole h
    → extract_sni (take n (wrap_record content_type_handshake h ++ rest)) ≡ (
        if ltb n (5 + length h)
        then malformed
        else extract_sni (wrap_record content_type_handshake h))
extract_sni-take h rest n fit whole = elim (Bool-cases (ltb n (5 + length h))) [
  | inl y ↦ rw y (extract_sni-missing h rest n fit whole (ground arith))
  | inr z ↦
      let le : 5 + length h ≤ n = ground arith in
      let enough : length (wrap_record content_type_handshake h) ≤ n =
        omega (arith, length-wrap_record h, le) in
      rw (z, take-append_ge n (wrap_record content_type_handshake h) rest enough)
        (extract_sni-wrap_record h _ fit whole)
]
