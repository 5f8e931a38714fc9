-- ===== src/Local/Laws.antt =====
-- What a context keeps (enova/common/local.py).
use enova.Prelude.{◌≡◌, refl, String, true, List, ◌∷◌, if◌then◌else◌, eq_refl, Bool-cases, inl, inr}
use enova.Value.{Value}
use enova.Value.Laws.{get-set_self}
use enova.Local.{Context, is_created, set_contextvars, get_contextvars}

is_created_head :
    (key : String) (created : List String)
    → is_created key (if is_created key created then created else key ∷ created) ≡ true
is_created_head key created = elim (Bool-cases (is_created key created)) [
  | inl there ↦ rw there there
  | inr fresh ↦ let same = eq_refl key in rw (fresh, same) refl
]

pub get_contextvars-set :
    (key : String) (value default : Value) (c : Context)
    → get_contextvars key default (set_contextvars key value c) ≡ value
unfolding get_contextvars set_contextvars
get_contextvars-set key value default c =
    let created = is_created_head key c.created in
    let stored = get-set_self key value c.values in rw (created, stored) refl
