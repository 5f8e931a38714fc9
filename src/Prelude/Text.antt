-- ===== src/Prelude/Text.antt =====
-- Texts.
use Prim.Native.Nat.{ℕ, ◌+◌}
use Prim.Native.Char.{code}
use Prim.Native.String.{String}
use mathlib.Core.Bool.{Bool, true, false, ◌&&◌, ◌||◌}
use mathlib.Core.List.{List, [], ◌∷◌, map}
use enova.Prelude.Tests.{◌==◌, leb, if◌then◌else◌}

-- The code points of a text. `String` has its own `[]` and `∷`.
abbrev pub codes : String → List ℕ
codes String.[] = []
codes (String.◌∷◌ c s) = code c ∷ codes s

-- `str.lower` on the ASCII letters.
abbrev pub lower_code : ℕ → ℕ
lower_code c = if leb 65 c && leb c 90 then c + 32 else c

abbrev pub lower : List ℕ → List ℕ
lower = map lower_code

-- Equality of texts given as code points.
abbrev pub same_codes : List ℕ → List ℕ → Bool
same_codes [] [] = true
same_codes (a ∷ as_) (b ∷ bs) = a == b && same_codes as_ bs
same_codes _ _ = false

-- Whether a text starts with another, and whether it has it as a part.
abbrev pub is_prefix : List ℕ → List ℕ → Bool
is_prefix [] bs = true
is_prefix (a ∷ as_) [] = false
is_prefix (a ∷ as_) (b ∷ bs) = a == b && is_prefix as_ bs

abbrev pub has_part : List ℕ → List ℕ → Bool
has_part as_ [] = is_prefix as_ []
has_part as_ (b ∷ bs) = is_prefix as_ (b ∷ bs) || has_part as_ bs
