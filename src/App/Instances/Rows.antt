-- ===== src/App/Instances/Rows.antt =====
-- Counting active rows (enova/app/service.py).
use enova.Prelude.{◌+◌, ◌≡◌, List, [], ◌∷◌, ◌++◌, if◌then◌else◌, arith}
use enova.App.Store.{Instance}
use enova.App.Instances.{true, is_active, active}

pub active-append : (xs ys : List Instance) → active (xs ++ ys) ≡ active xs + active ys
unfolding active
active-append [] ys = omega arith
active-append (x ∷ xs) ys = ground (arith, active-append xs ys)

pub active-cons :
    (x : Instance) (xs : List Instance)
    → active (x ∷ xs) ≡ (if is_active x then 1 + active xs else active xs)
unfolding active
active-cons x xs = ground arith

pub active-one : (x : Instance) → is_active x ≡ true → active (x ∷ []) ≡ 1
unfolding active
active-one x h = rw h
