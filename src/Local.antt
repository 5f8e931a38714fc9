-- ===== src/Local.antt =====
-- enova/common/local.py and enova/common/g_vars.py: values that belong to a request or to a thread.
pub mod Laws
use enova.Prelude.{
  String, Bool, true, false, List, [], ◌∷◌, Option, none, some, if◌then◌else◌, str_eq,
}
use enova.Value.{Value, null, text, Fields, end, field, get, set}

-- `context_vars_dict`, by its keys, and what a context has set.
pub record Context : Type 0 where
  pub created : List String
  pub values : Fields

abbrev pub is_created : String → List String → Bool
is_created key [] = false
is_created key (k ∷ rest) = if str_eq k key then true else is_created key rest

unfoldable pub set_contextvars : String → Value → Context → Context
set_contextvars key value c = record {
  created = if is_created key c.created then c.created else key ∷ c.created;
  values = set key value c.values;
}

-- `none` is an AttributeError: a ContextVar has no `clear`.
unfoldable pub del_contextvars : String → Context → Option Context
del_contextvars key c = if is_created key c.created then none else some c

-- A variable that this context has not set is a LookupError, which gives the default.
unfoldable pub get_contextvars : String → Value → Context → Value
get_contextvars key default c =
    if is_created key c.created
    then elim (get key c.values) [ none ↦ default | some v ↦ v ]
    else default

abbrev pub has_contextvars : String → Context → Bool
has_contextvars key c = false

-- `threading.local()`.
unfoldable pub set_local_param : String → Value → Fields → Fields
set_local_param key value local_ = set key value local_

unfoldable pub get_local_param : String → Value → Fields → Value
get_local_param key default local_ = elim (get key local_) [ none ↦ default | some v ↦ v ]

unfoldable pub del_local_param : String → Fields → Fields
del_local_param key end = end
del_local_param key (field k v rest) =
    if str_eq k key then rest else field k v (del_local_param key rest)

-- `contextlocal_cache(func)` at one call: `key` is its name and its arguments, `ret` what `func`
-- returns; with it goes whether `func` was called.
unfoldable pub contextlocal_cache : String → Value → Fields → Context → (Value × Bool) × Context
unfolding get_local_param set_contextvars
contextlocal_cache key ret local_ c =
    if has_contextvars key c
    then ((get_local_param key null local_, false), c)
    else ((ret, true), set_contextvars key ret c)

abbrev pub or_fresh : String → Value → Context → Value × Context
or_fresh fresh null c = (text fresh, set_contextvars "trace_id" (text fresh) c)
or_fresh fresh v c = (v, c)

-- `fresh` is `uuid.uuid4().hex`.
unfoldable pub get_traceid : String → Context → Value × Context
unfolding get_contextvars set_contextvars
get_traceid fresh c = or_fresh fresh (get_contextvars "trace_id" null c) c

unfoldable pub get_realip : Context → Value
unfolding get_contextvars
get_realip c = get_contextvars "real_ip" null c
