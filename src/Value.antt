-- ===== src/Value.antt =====
-- Python values as they stand in configuration dicts, JSON columns and request bodies.
pub mod Laws
use enova.Prelude.{
  zero, String, Bool, true, false, not, List, [], ◌∷◌, Option, none, some, if◌then◌else◌, str_eq,
}
use enova.Prelude.Int.{ℤ, pos}

mutual
  pub data Value : Type 0 where
    null : Value
    bool : Bool → Value
    int : ℤ → Value
    -- A float, by its literal.
    float : String → Value
    text : String → Value
    list : Items → Value
    dict : Fields → Value

  pub data Items : Type 0 where
    nil : Items
    cons : Value → Items → Items

  -- A dict with text keys, in insertion order.
  pub data Fields : Type 0 where
    end : Fields
    field : String → Value → Fields → Fields

abbrev pub get : String → Fields → Option Value
get k end = none
get k (field j v rest) = if str_eq j k then some v else get k rest

-- `d[k] = v`: a new key goes last.
abbrev pub set : String → Value → Fields → Fields
set k v end = field k v end
set k v (field j w rest) = if str_eq j k then field j v rest else field j w (set k v rest)

-- `d.update(other)`.
abbrev pub update : Fields → Fields → Fields
update d end = d
update d (field k v rest) = update (set k v d) rest

-- `d.get(k)`.
abbrev pub get_value : String → Fields → Value
get_value k d = elim (get k d) [ none ↦ null | some v ↦ v ]

abbrev pub is_empty : Fields → Bool
is_empty end = true
is_empty (field k v rest) = false

-- `bool(v)`; a float is zero by its literal "0.0".
abbrev pub truthy : Value → Bool
truthy null = false
truthy (bool b) = b
truthy (int (pos zero)) = false
truthy (int n) = true
truthy (float s) = not (str_eq s "0.0")
truthy (text s) = not (str_eq s "")
truthy (list nil) = false
truthy (list (cons v vs)) = true
truthy (dict d) = not (is_empty d)
