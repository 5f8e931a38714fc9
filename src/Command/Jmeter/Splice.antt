-- ===== src/Command/Jmeter/Splice.antt =====
-- Python's `split` at a character, and `replace`.
use Prim.Native.Char.{Char, code}
use Prim.Native.String.{◌++◌ as str_append}
use enova.Prelude.{
  true, false, ℕ, zero, suc, ◌-◌, String, List, [], ◌∷◌, if◌then◌else◌, ◌==◌, starts_with,
}

abbrev pub concat : List String → String
concat [] = ""
concat (s ∷ rest) = str_append s (concat rest)

abbrev push : Char → List String → List String
push c [] = String.◌∷◌ c "" ∷ []
push c (s ∷ rest) = String.◌∷◌ c s ∷ rest

-- `s.split(c)` at the character of this code.
unfoldable pub split : ℕ → String → List String
split k String.[] = "" ∷ []
split k (String.◌∷◌ c s) = let rest = split k s in if code c == k then "" ∷ rest else push c rest

abbrev count : String → ℕ
count String.[] = 0
count (String.◌∷◌ c s) = suc (count s)

-- `skip` characters of an occurrence are still to be dropped; a mark is not empty.
unfoldable pub replace_from : String → String → ℕ → String → String
replace_from mark value skip String.[] = ""
replace_from mark value (suc skip) (String.◌∷◌ c s) = replace_from mark value skip s
replace_from mark value zero (String.◌∷◌ c s) = elim (starts_with (String.◌∷◌ c s) mark) [
  | true ↦ str_append value (replace_from mark value (count mark - 1) s)
  | false ↦ String.◌∷◌ c (replace_from mark value zero s)
]

abbrev pub replace : String → String → String → String
replace mark value s = replace_from mark value 0 s
