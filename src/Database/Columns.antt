-- ===== src/Database/Columns.antt =====
-- enova/database/relation/orm/base.py: the arguments of tables, the columns, and the base of the models.
use enova.Prelude.{
  String, Bool, true, false, List, [], ◌∷◌, ◌++◌, Option, none, some, if◌then◌else◌, str_eq,
}
use enova.Value.{
  Value, null, text, dict, Fields, end, field, get_value, set, update, truthy, is_empty,
}

-- An entry of a tuple `__table_args__`, and such an attribute: a dict or a tuple. A positional argument is
-- known by its name.
pub data Entry : Type 0 where
  positional : String → Entry
  options : Fields → Entry

pub data TableArgs : Type 0 where
  keywords : Fields → TableArgs
  entries : List Entry → TableArgs

-- The dicts `args`, by its keys, and `kwargs`.
pub record Merged : Type 0 where
  pub args : List String
  pub kwargs : Fields

abbrev is_in : String → List String → Bool
is_in k [] = false
is_in k (c ∷ rest) = if str_eq c k then true else is_in k rest

abbrev add_arg : String → Merged → Merged
add_arg a m = if is_in a m.args then m else record m { args = m.args ++ a ∷ [] }

-- A dict that is not last cannot be hashed; an empty tuple is a ValueError.
unfoldable pub add_entries : List Entry → Merged → Option Merged
add_entries [] m = none
add_entries (positional a ∷ []) m = some (add_arg a m)
add_entries (options d ∷ []) m = some (record m { kwargs = update m.kwargs d })
add_entries (positional a ∷ e ∷ rest) m = add_entries (e ∷ rest) (add_arg a m)
add_entries (options d ∷ e ∷ rest) m = none

abbrev add_attr : TableArgs → Merged → Option Merged
add_attr (keywords d) m = some (record m { kwargs = update m.kwargs d })
add_attr (entries es) m = add_entries es m

abbrev and_then : Option Merged → (Merged → Option Merged) → Option Merged
and_then none f = none
and_then (some m) f = f m

unfoldable pub merge_attrs : List TableArgs → Merged → Option Merged
unfolding add_entries
merge_attrs [] m = some m
merge_attrs (t ∷ rest) m = and_then (add_attr t m) (merge_attrs rest)

abbrev is_filled : Option TableArgs → Bool
is_filled none = false
is_filled (some (keywords d)) = truthy (dict d)
is_filled (some (entries [])) = false
is_filled (some (entries (e ∷ es))) = true

-- The attributes of the bases, from the last to the first, where they are not empty.
abbrev attrs_of : List (Option TableArgs) → List TableArgs
attrs_of [] = []
attrs_of (none ∷ rest) = attrs_of rest
attrs_of (some t ∷ rest) = attrs_of rest ++ (if is_filled (some t) then t ∷ [] else [])

abbrev positionals : List String → List Entry
positionals [] = []
positionals (a ∷ rest) = positional a ∷ positionals rest

abbrev result_of : Merged → TableArgs
result_of m = elim m.args [
  | [] ↦ keywords m.kwargs
  | a ∷ rest ↦
      entries (positionals (a ∷ rest) ++ (if is_empty m.kwargs then [] else options m.kwargs ∷ []))
]

-- `table_args`; the bases are in their order.
unfoldable pub table_args : List (Option TableArgs) → TableArgs → Option TableArgs
unfolding merge_attrs
table_args bases own =
    elim (merge_attrs (attrs_of bases ++ own ∷ []) (record { args = []; kwargs = end })) [
      | none ↦ none
      | some m ↦ some (result_of m)
    ]

-- The columns `JSON` and `DateTime`, with the functions of json and datetime; `none` is their exception.
pub record Codec : Type 0 where
  pub dumps : Value → Option String
  pub loads : Value → Option Value
  pub fromisoformat : String → Option Value
  -- The text of a date or a time, for what is one.
  pub strftime : Value → Option String

-- `JSON.process_bind_param`, and `process_result_value`, which makes None of what it cannot read.
abbrev pub json_bind : Codec → Value → Option String
json_bind c v = c.dumps v

abbrev pub json_result : Codec → Value → Value
json_result c v = elim (c.loads v) [ none ↦ null | some x ↦ x ]

-- `DateTime.process_bind_param`.
unfoldable pub datetime_bind : Codec → Value → Option Value
datetime_bind c (text s) = c.fromisoformat s
datetime_bind c v = some v

-- `DBModelBase.dict`: the columns of a row, those of times as texts.
abbrev formatted : Codec → Value → Value
formatted c v = if truthy v then elim (c.strftime v) [ none ↦ v | some s ↦ text s ] else v

unfoldable pub columns_of : List String → Fields → Fields
columns_of [] row = end
columns_of (name ∷ rest) row = field name (get_value name row) (columns_of rest row)

unfoldable pub format_all : Codec → List String → Fields → Fields
format_all c [] ret = ret
format_all c (name ∷ rest) ret = format_all c rest (set name (formatted c (get_value name ret)) ret)

unfoldable pub model_dict : Codec → List String → List String → Fields → Fields
unfolding columns_of format_all
model_dict c names datetime_names row = format_all c datetime_names (columns_of names row)

-- `EmergingAIDBModelBase.__init__`: what is no column is dropped.
unfoldable pub init_kwargs : List String → Fields → Fields
init_kwargs columns end = end
init_kwargs columns (field k v rest) =
    let others = init_kwargs columns rest in if is_in k columns then field k v others else others

unfoldable pub validate_json_schema : Codec → Value → Option Value
validate_json_schema c (text s) = c.loads (text s)
validate_json_schema c v = some v
