-- ===== src/Cursor.antt =====
-- crates/aegiuw-core/src/sni.rs, `Cursor`: a slice and a position, and the bounded readers.
-- A reader that refuses returns `none`. Positions are natural numbers: where `checked_add` would
-- refuse, `end` is past every slice, so the bounds check of `get` refuses as well.
pub mod Reading
pub mod Loop
pub mod Ensures
pub mod Stable
pub mod Octets
use aegiuw.Prelude.{
  ℕ, ◌+◌, ◌*◌, ◌-◌, Bool, true, false, [], ◌∷◌, Option, none, some, Bytes, length, get_elem?, take,
  drop, leb, if◌then◌else◌, bind, map_option,
}

pub record Cursor : Type 0 where
  pub bytes : Bytes
  pub pos : ℕ

-- A reader: what it reads and the cursor behind it, or `none`. The source's `?` is the bind.
abbrev pub Reader {ℓ} : Type ℓ → Type ℓ
Reader A = Cursor → Option (A × Cursor)

infixl 5 ◌>>=◌ ◌>>◌
abbrev pub ◌>>=◌ {ℓ κ} : {A : Type ℓ} {B : Type κ} → Reader A → (A → Reader B) → Reader B
◌>>=◌ m f c = bind (m c) (λ (a, c'). f a c')

abbrev pub ◌>>◌ {ℓ} : {B : Type ℓ} → Reader (Unit {0}) → Reader B → Reader B
◌>>◌ m k = m >>= (λ _. k)

abbrev pub pure {ℓ} : {A : Type ℓ} → A → Reader A
pure a c = some (a, c)

-- An early `return None` unless the test holds.
abbrev pub guard : Bool → Reader (Unit {0})
guard true c = some (tt, c)
guard false c = none

-- `e?` for an `Option` computed without the cursor.
abbrev pub lift {ℓ} : {A : Type ℓ} → Option A → Reader A
lift o c = map_option (λ a. (a, c)) o

unfoldable pub new : Bytes → Cursor
new bytes = record { bytes = bytes; pos = 0 }

unfoldable pub remaining : Cursor → ℕ
remaining c = length c.bytes - c.pos

unfoldable pub read_u8 : Reader ℕ
read_u8 c = map_option (λ b. (b, record c { pos = c.pos + 1 })) (get_elem? c.bytes c.pos)

-- `bytes.get(pos .. pos + n)`.
unfoldable pub read_slice : ℕ → Reader Bytes
read_slice n c =
    if leb (c.pos + n) (length c.bytes)
    then some (take n (drop c.pos c.bytes), record c { pos = c.pos + n })
    else none

-- `u16::from_be_bytes` of a slice of two bytes.
abbrev pub be_u16 : Bytes → Option ℕ
be_u16 (a ∷ b ∷ []) = some (a * 256 + b)
be_u16 _ = none

abbrev pub be_u24 : Bytes → Option ℕ
be_u24 (a ∷ b ∷ c ∷ []) = some (a * 65536 + b * 256 + c)
be_u24 _ = none

unfoldable pub read_u16 : Reader ℕ
read_u16 = read_slice 2 >>= (λ s. lift (be_u16 s))

unfoldable pub read_u24 : Reader ℕ
read_u24 = read_slice 3 >>= (λ s. lift (be_u24 s))

unfoldable pub read_u8_prefixed : Reader Bytes
read_u8_prefixed = read_u8 >>= read_slice

unfoldable pub read_u16_prefixed : Reader Bytes
read_u16_prefixed = read_u16 >>= read_slice
