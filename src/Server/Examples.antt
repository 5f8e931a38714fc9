-- ===== src/Server/Examples.antt =====
-- The theorems on enova/server/restful/service.py at concrete tables.
use enova.Prelude.{ℕ, List, [], ◌∷◌}
use enova.Server.Bounds.{Limits}

abbrev numbers : List ℕ
numbers = 5 ∷ 8 ∷ 1 ∷ 9 ∷ 7 ∷ 6 ∷ []

-- `CONFIG.api`, as it stands by default.
abbrev limits : Limits
limits = record { min_page = 1; max_page = 1000; min_size = 1; max_size = 200 }
