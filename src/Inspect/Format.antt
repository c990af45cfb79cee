-- ===== src/Inspect/Format.antt =====
-- The standard library's formatting, as the tools of crates/aegiuw-sni-inspect use it: `println!`,
-- padding to a width, and the text of a Boolean. A text is the list of its `char`s.
use aegiuw.Prelude.{
  Bytes, length, replicate, ℕ, ◌-◌, ◌≡◌, refl, sym, ap, ◌∙◌, Bool, true, false, List, [], ◌∷◌, ◌++◌,
  append_assoc,
}
use aegiuw.Prelude.Text.{codes}

-- `println!` of a line in front of the rest of the output.
abbrev pub line_then : Bytes → Bytes → Bytes
line_then line out = line ++ b'\n' ∷ out

-- `{:<w}` and `{:>w}`: spaces up to the width, none where the text is longer.
unfoldable pub pad_right : ℕ → Bytes → Bytes
pad_right w s = s ++ replicate (w - length s) b' '

unfoldable pub pad_left : ℕ → Bytes → Bytes
pad_left w s = replicate (w - length s) b' ' ++ s

abbrev pub bool_text : Bool → Bytes
bool_text true = codes "true"
bool_text false = codes "false"

-- The text of some lines, each with a line feed behind.
unfoldable pub unlines : List Bytes → Bytes
unlines [] = []
unlines (line ∷ lines) = line ++ b'\n' ∷ unlines lines

-- An output has the line, behind some whole lines.
abbrev pub HasLine : Bytes → Bytes → Type 0
HasLine line out =
    (before : List Bytes) × (after : Bytes) × (out ≡ unlines before ++ line_then line after)

pub HasLine-here : (line after : Bytes) → HasLine line (line_then line after)
unfolding unlines
HasLine-here line after = ([], after, refl)

pub HasLine-later : (line first out : Bytes) → HasLine line out → HasLine line (line_then first out)
unfolding unlines
HasLine-later line first out (before, after, e) = (
  first ∷ before,
  after,
  ap (line_then first) e ∙ sym (append_assoc first (b'\n' ∷ unlines before) (line_then line after)),
)
