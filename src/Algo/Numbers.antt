-- ===== src/Algo/Numbers.antt =====
-- Python's numbers, as enova/algo/service.py mixes them: an int and a float are values of one
-- abstract type, and the operations are parameters. Nothing is assumed of them here.
use enova.Prelude.{ℕ, Bool, List, [], ◌∷◌, if◌then◌else◌, Option}

pub record Numbers : Type 1 where
  pub Number : Type 0
  -- An int literal or value, and the literal a / 10.
  pub of_ℕ : ℕ → Number
  pub tenths : ℕ → Number
  pub add : Number → Number → Number
  pub sub : Number → Number → Number
  pub mul : Number → Number → Number
  pub div : Number → Number → Number
  pub floor_div : Number → Number → Number
  pub abs : Number → Number
  pub ceil : Number → Number
  -- `int(x)`, which raises at an infinity.
  pub to_int : Number → Option Number
  pub less : Number → Number → Bool
  pub at_most : Number → Number → Bool
  pub eq : Number → Number → Bool

module _ (numbers : Numbers) where
  open numbers use {Number, less}

  -- `min(items, key=...)`: the first item whose key no later key is below.
  abbrev pub min_from : {A : Type 0} → (A → Number) → A → List A → A
  min_from key best [] = best
  min_from key best (x ∷ xs) = min_from key (if less (key x) (key best) then x else best) xs
