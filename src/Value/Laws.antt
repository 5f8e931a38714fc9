-- ===== src/Value/Laws.antt =====
-- The laws of dicts.
use enova.Prelude.{String, ◌≡◌, refl, some, if◌then◌else◌, str_eq, eq_iff, eq_refl, arith}
use enova.Value.{Value, Fields, end, field, get, set}

pub get-set :
    (k j : String) (v : Value) (d : Fields)
    → get j (set k v d) ≡ (if str_eq k j then some v else get j d)
get-set k j v end = refl
get-set k j v (field i w rest) =
    ground (arith, eq_iff k j, eq_iff i k, eq_iff i j, get-set k j v rest)

pub get-set_self : (k : String) (v : Value) (d : Fields) → get k (set k v d) ≡ some v
get-set_self k v d = simp (get-set, eq_refl)
