-- ===== src/Sni/Std.antt =====
-- What crates/aegiuw-core/src/sni.rs takes from the standard library: `str::from_utf8`,
-- `strip_suffix('.')`, `split('.')`,
-- `is_ascii_alphanumeric`, `eq_ignore_ascii_case` and `IpAddr::from_str`.
use aegiuw.Prelude.{
  ltb, ◌==◌, if◌then◌else◌, within, Bytes, is_empty, bind, ℕ, zero, suc, ◌+◌, ◌-◌, ◌*◌, Bool, true,
  false, not, ◌&&◌, ◌||◌, Option, none, some, List, [], ◌∷◌,
}

abbrev cont : ℕ × ℕ
cont = (0x80, 0xbf)

-- The ranges of the bytes that must follow a lead byte (Unicode, table 3-7).
unfoldable pub utf8_lead : ℕ → Option (List (ℕ × ℕ))
utf8_lead b =
    if ltb b 0x80
    then some []
    else if within 0xc2 0xdf b
    then some (cont ∷ [])
    else if b == 0xe0
    then some ((0xa0, 0xbf) ∷ cont ∷ [])
    else if b == 0xed
    then some ((0x80, 0x9f) ∷ cont ∷ [])
    else if within 0xe1 0xef b
    then some (cont ∷ cont ∷ [])
    else if b == 0xf0
    then some ((0x90, 0xbf) ∷ cont ∷ cont ∷ [])
    else if within 0xf1 0xf3 b
    then some (cont ∷ cont ∷ cont ∷ [])
    else if b == 0xf4
    then some ((0x80, 0x8f) ∷ cont ∷ cont ∷ [])
    else none

unfoldable pub utf8_run : List (ℕ × ℕ) → Bytes → Bool
utf8_run [] [] = true
utf8_run (p ∷ ps) [] = false
utf8_run [] (b ∷ s) = elim (utf8_lead b) [ none ↦ false | some ps ↦ utf8_run ps s ]
utf8_run ((lo, hi) ∷ ps) (b ∷ s) = elim (within lo hi b) [ true ↦ utf8_run ps s | false ↦ false ]

-- Whether `core::str::from_utf8` accepts the bytes.
unfoldable pub is_utf8 : Bytes → Bool
unfolding utf8_run utf8_lead
is_utf8 = utf8_run []

-- `s.strip_suffix('.').unwrap_or(s)`.
unfoldable pub strip_dot : Bytes → Bytes
strip_dot [] = []
strip_dot (b ∷ []) = if b == b'.' then [] else b ∷ []
strip_dot (b ∷ c ∷ s) = b ∷ strip_dot (c ∷ s)

abbrev pub is_digit : ℕ → Bool
is_digit = within b'0' b'9'

abbrev pub is_ascii_alphanumeric : ℕ → Bool
is_ascii_alphanumeric b = is_digit b || within b'a' b'z' b || within b'A' b'Z' b

unfoldable pub to_ascii_lowercase : ℕ → ℕ
to_ascii_lowercase b = if within b'A' b'Z' b then b + 32 else b

-- `eq_ignore_ascii_case` on two texts.
unfoldable pub eq_ignore_ascii_case : Bytes → Bytes → Bool
unfolding to_ascii_lowercase
eq_ignore_ascii_case [] [] = true
eq_ignore_ascii_case (a ∷ s) (b ∷ t) =
    to_ascii_lowercase a == to_ascii_lowercase b && eq_ignore_ascii_case s t
eq_ignore_ascii_case _ _ = false

-- `to_digit(radix)` for the radices 10 and 16.
unfoldable pub to_digit : ℕ → ℕ → Option ℕ
to_digit radix b =
    if is_digit b
    then some (b - b'0')
    else if radix == 16 && within b'a' b'f' b
    then some (b - b'a' + 10)
    else if radix == 16 && within b'A' b'F' b
    then some (b - b'A' + 10)
    else none

-- The digits in front: how many, their value, and what follows.
unfoldable pub read_digits : ℕ → ℕ → ℕ → Bytes → ℕ × ℕ × Bytes
read_digits radix n v [] = (n, v, [])
read_digits radix n v (b ∷ s) = elim (to_digit radix b) [
  | none ↦ (n, v, b ∷ s)
  | some d ↦ read_digits radix (n + 1) (v * radix + d) s
]

-- `read_number(radix, Some(digits), allow_zero_prefix)`, for numbers up to `limit`; the rest.
unfoldable pub read_number : ℕ → ℕ → ℕ → Bool → Bytes → Option Bytes
read_number radix limit digits zeros s =
    let (n, v, rest) = read_digits radix 0 0 s in
    if n == 0 || ltb digits n || ltb limit v
    then none
    else if not zeros && elim s [ [] ↦ false | b ∷ _ ↦ b == b'0' ] && ltb 1 n
    then none
    else some rest

-- `read_given_char`.
unfoldable pub read_char : ℕ → Bytes → Option Bytes
read_char c [] = none
read_char c (b ∷ s) = if b == c then some s else none

-- `read_separator`: the separator stands before every item but the first.
unfoldable pub separator : ℕ → ℕ → Bytes → Option Bytes
separator c zero s = some s
separator c (suc i) s = read_char c s

unfoldable pub octet : ℕ → Bytes → Option Bytes
octet i s = bind (separator b'.' i s) (read_number 10 255 3 false)

unfoldable pub read_ipv4_addr : Bytes → Option Bytes
read_ipv4_addr s = bind (octet 0 s) (λ a. bind (octet 1 a) (λ b. bind (octet 2 b) (octet 3)))

-- `read_groups`, with `left` of its groups to read: how many were, whether an IPv4 tail, the rest.
unfoldable pub read_groups : ℕ → ℕ → Bytes → ℕ × Bool × Bytes
read_groups zero i s = (i, false, s)
read_groups (suc left) i s =
    elim (if ltb 0 left then bind (separator b':' i s) read_ipv4_addr else none) [
      | some rest ↦ (i + 2, true, rest)
      | none ↦ elim (bind (separator b':' i s) (read_number 16 0xffff 4 true)) [
        | some rest ↦ read_groups left (i + 1) rest
        | none ↦ (i, false, s)
      ]
    ]

unfoldable pub read_ipv6_addr : Bytes → Option Bytes
read_ipv6_addr s =
    let (head_size, head_ipv4, rest) = read_groups 8 0 s in
    if head_size == 8
    then some rest
    else if head_ipv4
    then none
    else bind (bind (read_char b':' rest) (read_char b':'))
        (λ t. let (_, _, end) = read_groups (8 - (head_size + 1)) 0 t in some end)

-- `s.parse::<IpAddr>().is_ok()`: an address of either kind, and nothing behind it.
unfoldable pub is_ip_addr : Bytes → Bool
unfolding read_ipv4_addr read_ipv6_addr read_groups octet separator read_char read_number
    read_digits to_digit
is_ip_addr s = elim (read_ipv4_addr s) [
  | some rest ↦ is_empty rest
  | none ↦ elim (read_ipv6_addr s) [ some rest ↦ is_empty rest | none ↦ false ]
]

-- A byte that is no dot goes to the first piece.
abbrev pub attach : ℕ → List Bytes → List Bytes
attach b [] = (b ∷ []) ∷ []
attach b (p ∷ ps) = (b ∷ p) ∷ ps

-- `s.split('.')`; there is one piece at least.
unfoldable pub split_dots : Bytes → List Bytes
split_dots [] = [] ∷ []
split_dots (b ∷ s) = if b == b'.' then [] ∷ split_dots s else attach b (split_dots s)
