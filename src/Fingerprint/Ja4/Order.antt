-- ===== src/Fingerprint/Ja4/Order.antt =====
-- JA4 does not depend on the order of the cipher suites, nor on that of the extensions.
use mathlib.Core.List.Permᴰ
use mathlib.Core.List.{Permᴰ, Perm}
use mathlib.Core.Logic.{∥∥₁_elim}
use aegiuw.Prelude.{
  ◌==◌, Bool-cases, Bytes, length, filter, ℕ, suc, ◌≡◌, refl, ap, ◌∙◌, subst, inl, inr, Bool, not,
  ◌&&◌, List, [], ◌∷◌, arith,
}
use aegiuw.Sni.Types.{ClientHelloMetadata, ext_server_name, ext_alpn}
use aegiuw.Fingerprint.{is_grease_codepoint, without_grease}
use aegiuw.Fingerprint.Ja4.{
  Ja4, insert, sort_unstable, hashed_extensions, ja4_count, ja4_tls_version_str, ja4_alpn_chars,
  ja4_a, ja4_b, ja4_c, ja4,
}

insert_comm : (x y : ℕ) (l : List ℕ) → insert x (insert y l) ≡ insert y (insert x l)
unfolding insert
insert_comm x y [] = ground arith
insert_comm x y (z ∷ l) = ground (arith, insert_comm x y l)

sort_unstable-Permᴰ : {xs ys : List ℕ} → Permᴰ xs ys → sort_unstable xs ≡ sort_unstable ys
unfolding sort_unstable
sort_unstable-Permᴰ Permᴰ.nil = refl
sort_unstable-Permᴰ (Permᴰ.cons {a} {b} {l₁} {l₂} e d) =
    ap (insert a) (sort_unstable-Permᴰ d) ∙ ap (λ x. insert x (sort_unstable l₂)) e
sort_unstable-Permᴰ (Permᴰ.swap {a} {b} {a'} {b'} {l} e f) =
    rw (e, f) (insert_comm b' a' (sort_unstable l))
sort_unstable-Permᴰ (Permᴰ.trans d e) = sort_unstable-Permᴰ d ∙ sort_unstable-Permᴰ e

filter_cons :
    (p : ℕ → Bool) (x : ℕ) (xs ys : List ℕ)
    → Permᴰ (filter p xs) (filter p ys)
    → Permᴰ (filter p (x ∷ xs)) (filter p (x ∷ ys))
filter_cons p x xs ys d = elim (Bool-cases (p x)) [
  | inl y ↦ rw y (Permᴰ.cons refl d)
  | inr n ↦ rw n d
]

filter_swap :
    (p : ℕ → Bool) (x y : ℕ) (l : List ℕ) → Permᴰ (filter p (x ∷ y ∷ l)) (filter p (y ∷ x ∷ l))
filter_swap p x y l = elim (Bool-cases (p x)) [
  | inl a ↦ elim (Bool-cases (p y)) [
    | inl b ↦ rw (a, b) (Permᴰ.swap refl refl)
    | inr b ↦ rw (a, b) (Permᴰ.cons refl (Permᴰ.refl (filter p l)))
  ]
  | inr a ↦ elim (Bool-cases (p y)) [
    | inl b ↦ rw (a, b) (Permᴰ.cons refl (Permᴰ.refl (filter p l)))
    | inr b ↦ rw (a, b) (Permᴰ.refl (filter p l))
  ]
]

filter-Permᴰ : (p : ℕ → Bool) {xs ys : List ℕ} → Permᴰ xs ys → Permᴰ (filter p xs) (filter p ys)
filter-Permᴰ p Permᴰ.nil = Permᴰ.nil
filter-Permᴰ p (Permᴰ.cons {a} {b} {l₁} {l₂} e d) =
    subst (λ b. Permᴰ (filter p (a ∷ l₁)) (filter p (b ∷ l₂))) e
      (filter_cons p a l₁ l₂ (filter-Permᴰ p d))
filter-Permᴰ p (Permᴰ.swap {a} {b} {a'} {b'} {l} e f) = rw (e, f) (filter_swap p b' a' l)
filter-Permᴰ p (Permᴰ.trans d e) = Permᴰ.trans (filter-Permᴰ p d) (filter-Permᴰ p e)

length-Permᴰ : {xs ys : List ℕ} → Permᴰ xs ys → length xs ≡ length ys
length-Permᴰ Permᴰ.nil = refl
length-Permᴰ (Permᴰ.cons e d) = ap suc (length-Permᴰ d)
length-Permᴰ (Permᴰ.swap e f) = refl
length-Permᴰ (Permᴰ.trans d e) = length-Permᴰ d ∙ length-Permᴰ e

without_grease-Permᴰ :
    {xs ys : List ℕ} → Permᴰ xs ys → Permᴰ (without_grease xs) (without_grease ys)
unfolding without_grease
without_grease-Permᴰ d = filter-Permᴰ (λ v. not (is_grease_codepoint v)) d

pub ja4_count-Permᴰ : {xs ys : List ℕ} → Permᴰ xs ys → ja4_count xs ≡ ja4_count ys
unfolding ja4_count
ja4_count-Permᴰ d = rw (length-Permᴰ (without_grease-Permᴰ d)) refl

pub sort-ciphers :
    {xs ys : List ℕ}
    → Permᴰ xs ys
    → sort_unstable (without_grease xs) ≡ sort_unstable (without_grease ys)
sort-ciphers d = sort_unstable-Permᴰ (without_grease-Permᴰ d)

pub sort-extensions :
    {xs ys : List ℕ}
    → Permᴰ xs ys
    → sort_unstable (hashed_extensions xs) ≡ sort_unstable (hashed_extensions ys)
unfolding hashed_extensions
sort-extensions d =
    sort_unstable-Permᴰ (
      filter-Permᴰ (λ v. not (v == ext_server_name) && not (v == ext_alpn))
        (without_grease-Permᴰ d))

pub Ja4-set : IsSet Ja4
Ja4-set = hlevel

reordered :
    (sha256 : Bytes → Bytes) (m : ClientHelloMetadata) (cs es : List ℕ)
    → Permᴰ m.cipher_suites cs
    → Permᴰ m.extension_order es
    → ja4 sha256 m ≡ ja4 sha256 (record m { cipher_suites = cs; extension_order = es })
unfolding ja4 ja4_a ja4_b ja4_c ja4_tls_version_str ja4_alpn_chars
reordered sha256 m cs es d e =
    rw (ja4_count-Permᴰ d, ja4_count-Permᴰ e, sort-ciphers d, sort-extensions e) refl

-- The JA4 fingerprint is the same for a hello whose cipher suites and extensions come in another
-- order, whatever the digest is.
pub ja4-perm :
    (sha256 : Bytes → Bytes) (m : ClientHelloMetadata) (cs es : List ℕ)
    → Perm m.cipher_suites cs
    → Perm m.extension_order es
    → ja4 sha256 m ≡ ja4 sha256 (record m { cipher_suites = cs; extension_order = es })
ja4-perm sha256 m cs es p q =
    ∥∥₁_elim p (Ja4-set _ _) λ d. ∥∥₁_elim q (Ja4-set _ _) λ e. reordered sha256 m cs es d e
