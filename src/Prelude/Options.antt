-- ===== src/Prelude/Options.antt =====
-- `Option` as the type of fallible results: the source's `?` is `◌>>=◌`.
use mathlib.Core.Path.{◌≡◌, refl}
use mathlib.Core.Logic.{◌⊎◌, inl, inr}
use mathlib.Core.Bool.{Bool, true, false}
use mathlib.Core.Option.{Option, none, some, some-injective}
use aegiuw.Prelude.Tests.{if◌then◌else◌}

pub Option-cases {ℓ} : {A : Type ℓ} (o : Option A) → (o ≡ none) ⊎ ((a : A) × (o ≡ some a))
Option-cases none = inl refl
Option-cases (some a) = inr (a, refl)

abbrev pub bind {ℓ κ} : {A : Type ℓ} {B : Type κ} → Option A → (A → Option B) → Option B
bind none f = none
bind (some a) f = f a

-- `Option::map`.
abbrev pub map_option {ℓ κ} : {A : Type ℓ} {B : Type κ} → (A → B) → Option A → Option B
map_option f none = none
map_option f (some a) = some (f a)

abbrev pub is_some {ℓ} : {A : Type ℓ} → Option A → Bool
is_some none = false
is_some (some a) = true

-- `unwrap_or`.
abbrev pub unwrap_or {ℓ} : {A : Type ℓ} → A → Option A → A
unwrap_or d none = d
unwrap_or d (some a) = a

-- Inversion of a successful bind.
pub bind-eq-some {ℓ κ} :
    {A : Type ℓ} {B : Type κ} (m : Option A) (f : A → Option B) {b : B}
    → bind m f ≡ some b
    → (a : A) × (m ≡ some a) × (f a ≡ some b)
bind-eq-some none f h = cc
bind-eq-some (some a) f h = (a, refl, h)

pub map_option-eq-some {ℓ κ} :
    {A : Type ℓ} {B : Type κ} (f : A → B) (o : Option A) {b : B}
    → map_option f o ≡ some b
    → (a : A) × (o ≡ some a) × (f a ≡ b)
map_option-eq-some f none h = cc
map_option-eq-some f (some a) h = (a, refl, some-injective _ _ h)

-- Inversion of a test that refuses, and of one that lets through.
pub unless-eq-some {ℓ} :
    {A : Type ℓ} (t : Bool) (o : Option A) {a : A}
    → (if t then none else o) ≡ some a
    → (t ≡ false) × (o ≡ some a)
unless-eq-some true o h = cc
unless-eq-some false o h = (refl, h)

pub when-eq-some {ℓ} :
    {A : Type ℓ} (t : Bool) (o : Option A) {a : A}
    → (if t then o else none) ≡ some a
    → (t ≡ true) × (o ≡ some a)
when-eq-some true o h = (refl, h)
when-eq-some false o h = cc
