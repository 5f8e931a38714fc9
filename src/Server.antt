-- ===== src/Server.antt =====
-- `BaseApiService.common_list`, `SingleResource` and `update_model_ins` of
-- enova/server/restful/service.py. A table is a list of rows; the conditions of a query and its order
-- are arguments, as sqlalchemy evaluates them.
pub mod Paging
pub mod Bounds
pub mod Query
pub mod Middleware
mod Examples
use enova.Prelude.{
  ℕ, ◌+◌, ◌-◌, ◌*◌, ◌/◌, Bool, true, false, not, String, List, [], ◌∷◌, Option, none, some, length,
  take, drop, keep, first, if◌then◌else◌, ◌==◌,
}
use enova.Value.{Value, null, Fields, end, field, get, set}

pub record Page {ℓ} (A : Type ℓ) : Type ℓ where
  pub total_num : ℕ
  pub page : ℕ
  pub size : ℕ
  pub num : ℕ
  -- `data`.
  pub rows : List A
  pub total_page : ℕ

-- `int(math.ceil(total_num / size))`.
abbrev pub pages_for : ℕ → ℕ → ℕ
pages_for total size = (total + size - 1) / size

-- `none` is the division by a size of 0, after the query has run.
unfoldable pub common_list {ℓ} :
    {A : Type ℓ} → (A → Bool) → (List A → List A) → ℕ → ℕ → List A → Option (Page A)
common_list matches order page size table =
    let found = order (keep matches table) in
    let rows = take size (drop (size * (page - 1)) found) in
    if size == 0
    then none
    else some (record {
      total_num = length (keep matches table);
      page = page;
      size = size;
      num = length rows;
      rows = rows;
      total_page = pages_for (length (keep matches table)) size;
    })

-- A row as a dict of its columns. `update_model_ins`: what is not None and is a column is set.
unfoldable pub update_model_ins : Fields → Fields → Fields
update_model_ins model end = model
update_model_ins model (field k null rest) = update_model_ins model rest
update_model_ins model (field k v rest) = elim (get k model) [
  | none ↦ update_model_ins model rest
  | some old ↦ update_model_ins (set k v model) rest
]

-- `SingleResource` over a table: `selects` is its filter by the primary key.
unfoldable pub is_existed : (Fields → Bool) → List Fields → Bool
is_existed selects table = not (length (keep selects table) == 0)

abbrev others : (Fields → Bool) → List Fields → List Fields
others selects table = keep (λ r. not (selects r)) table

-- `session.merge`: the row with the key is replaced.
abbrev pub replace : (Fields → Bool) → Fields → List Fields → List Fields
replace selects row [] = []
replace selects row (r ∷ rest) = (if selects r then row else r) ∷ replace selects row rest

-- `delete(force=True)`; `none` is the error of a resource that does not exist.
unfoldable pub delete : (Fields → Bool) → List Fields → Option (List Fields)
unfolding is_existed
delete selects table = if is_existed selects table then some (others selects table) else none

unfoldable pub get_row : (Fields → Bool) → List Fields → Option Fields
unfolding is_existed
get_row selects table = if is_existed selects table then first selects table else none

-- `update`: the first row, with the arguments, is merged and answered.
unfoldable pub update : (Fields → Bool) → Fields → List Fields → Option (Fields × List Fields)
unfolding get_row update_model_ins
update selects args table = elim (get_row selects table) [
  | none ↦ none
  | some row ↦ some (update_model_ins row args, replace selects (update_model_ins row args) table)
]
