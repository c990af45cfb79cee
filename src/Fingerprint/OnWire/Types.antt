-- ===== src/Fingerprint/OnWire/Types.antt =====
-- The types of the extensions of a hello.
use aegiuw.Prelude.{Bytes, ℕ, List, map}

abbrev pub types_of : List (ℕ × Bytes) → List ℕ
types_of es = map (λ (t, _). t) es
