-- ===== src/Prelude/Text.antt =====
-- Text literals as the list of their code points: for an ASCII text, its bytes and its `char`s.
use Prim.Native.Char.{code}
use Prim.Native.String.{String}
use mathlib.Core.List.{[], ◌∷◌}
use aegiuw.Prelude.Lists.{Bytes}

abbrev pub codes : String → Bytes
codes String.[] = []
codes (String.◌∷◌ c s) = code c ∷ codes s
