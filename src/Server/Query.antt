-- ===== src/Server/Query.antt =====
-- `build_query_condition` and `common_list_with_join` of enova/server/restful/service.py. A condition is
-- what is handed to sqlalchemy.
use enova.Prelude.{
  ℕ, ◌-◌, ◌*◌, String, Bool, false, ◌&&◌, ◌||◌, not, List, [], ◌∷◌, ◌++◌, Option, none, some,
  if◌then◌else◌, str_eq, length, take, drop, ◌==◌,
}
use enova.Value.{Value, null, list, dict, Items, nil, cons, Fields, end, field, set}
use enova.Error.{ErrorClass, args_error}
use enova.Server.{Page, pages_for}

mutual
  pub data Condition : Type 0 where
    at_least at_most has_part equals lower_equals : String → Value → Condition
    any_of : Conditions → Condition

  pub data Conditions : Type 0 where
    nothing : Conditions
    also : Condition → Conditions → Conditions

-- The class of a model, by its columns. It has no `string_names`.
abbrev pub Columns : Type 0
Columns = List String

-- The class attributes of a service; `none` is None.
pub record Service : Type 0 where
  pub start_time_field : Option String
  pub end_time_field : Option String
  pub fuzzy_field_list : List String
  pub ignore_case_field_list : List String

abbrev is_in : String → List String → Bool
is_in k [] = false
is_in k (c ∷ rest) = str_eq c k || is_in k rest

-- The conditions so far; `none` is an AttributeError.
pub record Found : Type 0 where
  pub and_ : List Condition
  pub or_ : List Condition

-- `getattr(db_model_cls, column)`.
abbrev on : Columns → String → Condition → Found → Option Found
on columns column c f =
    if is_in column columns then some (record f { and_ = f.and_ ++ c ∷ [] }) else none

abbrev or_key : String → Option String → String
or_key k none = k
or_key k (some column) = column

unfoldable pub add_fuzzy : Columns → List String → Value → Found → Option Found
add_fuzzy columns [] v f = some f
add_fuzzy columns (column ∷ rest) v f =
    if is_in column columns
    then add_fuzzy columns rest v (record f { or_ = f.or_ ++ has_part column v ∷ [] })
    else none

unfoldable pub any_items : String → Items → Conditions
any_items k nil = nothing
any_items k (cons v rest) = also (equals k v) (any_items k rest)

-- The ignored case reads `string_names`, which is an AttributeError.
abbrev on_column : Service → String → Value → Found → Option Found
on_column s k (list vs) f = some (record f { and_ = f.and_ ++ any_of (any_items k vs) ∷ [] })
on_column s k v f =
    if is_in k s.ignore_case_field_list
    then none
    else some (record f { and_ = f.and_ ++ equals k v ∷ [] })

abbrev is_paging : String → Bool
is_paging k = is_in k ("page" ∷ "size" ∷ "order_by" ∷ "order_type" ∷ [])

abbrev has_fuzzy : Service → Bool
has_fuzzy s = not (length s.fuzzy_field_list == 0)

abbrev add_key : Service → Columns → String → Value → Found → Option Found
add_key s columns k v f =
    if str_eq k "start_time"
    then on columns (or_key k s.start_time_field) (at_least (or_key k s.start_time_field) v) f
    else if str_eq k "end_time"
    then on columns (or_key k s.end_time_field) (at_most (or_key k s.end_time_field) v) f
    else if str_eq k "fuzzy" && has_fuzzy s
    then add_fuzzy columns s.fuzzy_field_list v f
    else if is_in k columns
    then on_column s k v f
    else some f

abbrev add_arg : Service → Columns → String → Value → Found → Option Found
add_arg s columns k null f = some f
add_arg s columns k v f = if is_paging k then some f else add_key s columns k v f

abbrev and_then : Option Found → (Found → Option Found) → Option Found
and_then none f = none
and_then (some x) f = f x

unfoldable pub add_args : Service → Columns → Fields → Found → Option Found
unfolding add_fuzzy any_items
add_args s columns end f = some f
add_args s columns (field k v rest) f = and_then (add_arg s columns k v f) (add_args s columns rest)

abbrev conditions_of : List Condition → Conditions
conditions_of [] = nothing
conditions_of (c ∷ rest) = also c (conditions_of rest)

abbrev any_part : List Condition → List Condition
any_part [] = []
any_part (c ∷ rest) = any_of (conditions_of (c ∷ rest)) ∷ []

unfoldable pub build_query_condition : Service → Columns → Fields → Option (List Condition)
unfolding add_args
build_query_condition s columns args =
    elim (add_args s columns args (record { and_ = []; or_ = [] })) [
      | none ↦ none
      | some f ↦ some (f.and_ ++ any_part f.or_)
    ]

-- `common_list_with_join`: a row with the rows that an outer join finds for it, under their tables' names.
unfoldable pub with_related : List String → List (Option Fields) → Fields → Fields
with_related (name ∷ names) (none ∷ rows) row = with_related names rows (set name (dict end) row)
with_related (name ∷ names) (some r ∷ rows) row = with_related names rows (set name (dict r) row)
with_related _ _ row = row

-- What refuses a join, by the number of the configurations and of the classes.
unfoldable pub check_join : Option ℕ → Option ℕ → Option ErrorClass
check_join none joins = some args_error
check_join (some related) none = some args_error
check_join (some related) (some joins) = if related == joins then none else some args_error

abbrev joined : List String → List (Fields × List (Option Fields)) → List Fields
joined names [] = []
joined names ((row, related) ∷ rest) = with_related names related row ∷ joined names rest

-- The answer, of the rows that the query finds; `none` is the division by a size of 0.
unfoldable pub common_list_with_join :
    List String → ℕ → ℕ → List (Fields × List (Option Fields)) → Option (Page Fields)
unfolding with_related
common_list_with_join names page size found =
    let rows = joined names (take size (drop (size * (page - 1)) found)) in
    if size == 0
    then none
    else some (record {
      total_num = length found;
      page = page;
      size = size;
      num = length rows;
      rows = rows;
      total_page = pages_for (length found) size;
    })
