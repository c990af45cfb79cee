-- ===== src/Heuristics/Context/Names.antt =====
-- How far the classification of crates/aegiuw-core/src/heuristics/context.rs depends on the spelling
-- of a process name.
use aegiuw.Prelude.{
  ◌==◌, if◌then◌else◌, ==_iff, Bytes, ℕ, ◌≡◌, refl, sym, ap, ◌∙◌, subst, ◌↔◌, Bool, true, false,
  ◌&&◌, List, [], ◌∷◌, ◌++◌, map, arith,
}
use aegiuw.Sni.Std.{to_ascii_lowercase, eq_ignore_ascii_case}
use aegiuw.Heuristics.Context.{
  email_client, document_reader, browser, other, docs, browsers, starts_with, has_substring, hit,
  email, classify_parent,
}

starts_with-append : (s p post : Bytes) → starts_with s p ≡ true → starts_with (s ++ post) p ≡ true
unfolding starts_with
starts_with-append s [] post e = refl
starts_with-append [] (c ∷ p) post e = absurd (cc)
starts_with-append (b ∷ s) (c ∷ p) post e = ground (arith, starts_with-append s p post)

has_substring-starts_with : (s p : Bytes) → starts_with s p ≡ true → has_substring s p ≡ true
unfolding has_substring
has_substring-starts_with [] p e = e
has_substring-starts_with (b ∷ s) p e = rw e refl

has_substring-append :
    (s p post : Bytes) → has_substring s p ≡ true → has_substring (s ++ post) p ≡ true
unfolding has_substring
has_substring-append [] p post e = has_substring-starts_with post p (starts_with-append [] p post e)
has_substring-append (b ∷ s) p post e =
    ground (arith, has_substring-append s p post, starts_with-append (b ∷ s) p post)

has_substring-prepend :
    (pre s p : Bytes) → has_substring s p ≡ true → has_substring (pre ++ s) p ≡ true
unfolding has_substring
has_substring-prepend [] s p e = e
has_substring-prepend (b ∷ pre) s p e = ground (arith, has_substring-prepend pre s p e)

has_substring-within :
    (pre s post p : Bytes) → has_substring s p ≡ true → has_substring (pre ++ (s ++ post)) p ≡ true
has_substring-within pre s post p e =
    has_substring-prepend pre (s ++ post) p (has_substring-append s p post e)

hit-within :
    (table : List Bytes) (pre s post : Bytes)
    → hit s table ≡ true
    → hit (pre ++ (s ++ post)) table ≡ true
unfolding hit
hit-within [] pre s post e = absurd (cc)
hit-within (p ∷ table) pre s post e =
    ground (arith, hit-within table pre s post, has_substring-within pre s post p)

map-append : (f : ℕ → ℕ) (s t : Bytes) → map f (s ++ t) ≡ map f s ++ map f t
map-append f [] t = refl
map-append f (b ∷ s) t = ap (λ u. f b ∷ u) (map-append f s t)

map-within :
    (f : ℕ → ℕ) (pre s post : Bytes)
    → map f (pre ++ (s ++ post)) ≡ map f pre ++ (map f s ++ map f post)
map-within f pre s post =
    map-append f pre (s ++ post) ∙ ap (λ t. map f pre ++ t) (map-append f s post)

first_arm :
    (e d b : Bool)
    → (if e then email_client else if d then document_reader else if b then browser else other)
      ≡ email_client
    → e ≡ true
first_arm true d b h = refl
first_arm false true b h = absurd (cc)
first_arm false false true h = absurd (cc)
first_arm false false false h = absurd (cc)

email-hit :
    (name : Bytes)
    → (classify_parent name ≡ email_client) ↔ (hit (map to_ascii_lowercase name) email ≡ true)
unfolding classify_parent
email-hit name =
    let lower = map to_ascii_lowercase name in
    (first_arm (hit lower email) (hit lower docs) (hit lower browsers), λ h. rw h refl)

-- A process name that is an email client's stays one with anything in front of it and behind it, a
-- path or an extension.
pub classify_parent_within :
    (pre name post : Bytes)
    → classify_parent name ≡ email_client
    → classify_parent (pre ++ (name ++ post)) ≡ email_client
classify_parent_within pre name post e = (email-hit (pre ++ (name ++ post))).1 (
    subst (λ t. hit t email ≡ true) (sym (map-within to_ascii_lowercase pre name post))
      (hit-within email (map to_ascii_lowercase pre) (map to_ascii_lowercase name)
        (map to_ascii_lowercase post) ((email-hit name).0 e)))

both-true : (x y : Bool) → (x && y) ≡ true → (x ≡ true) × (y ≡ true)
both-true true y h = (refl, h)
both-true false y h = absurd (cc)

eq_ignore_ascii_case-lowercase :
    (s t : Bytes)
    → eq_ignore_ascii_case s t ≡ true
    → map to_ascii_lowercase s ≡ map to_ascii_lowercase t
unfolding eq_ignore_ascii_case
eq_ignore_ascii_case-lowercase [] [] e = refl
eq_ignore_ascii_case-lowercase [] (c ∷ t) e = absurd (cc)
eq_ignore_ascii_case-lowercase (b ∷ s) [] e = absurd (cc)
eq_ignore_ascii_case-lowercase (b ∷ s) (c ∷ t) e =
    let (same, rest) =
      both-true (to_ascii_lowercase b == to_ascii_lowercase c) (eq_ignore_ascii_case s t) e in
    ap (λ n. n ∷ map to_ascii_lowercase s) ((==_iff _ _).0 same)
    ∙ ap (λ u. to_ascii_lowercase c ∷ u) (eq_ignore_ascii_case-lowercase s t rest)

-- Two process names that differ in the case of ASCII letters only are classified alike.
pub classify_parent-eq_ignore_ascii_case :
    (s t : Bytes) → eq_ignore_ascii_case s t ≡ true → classify_parent s ≡ classify_parent t
unfolding classify_parent
classify_parent-eq_ignore_ascii_case s t e = rw (eq_ignore_ascii_case-lowercase s t e) refl
