-- ===== src/Server/Paging.antt =====
-- The pages of a list (enova/server/restful/service.py).
use enova.Prelude.{ℕ, zero, suc, Bool, List, [], ◌++◌, Option, none, some}
use enova.Server.{Page, common_list}

module _ {A : Type 0} where
  -- The rows of an answer; none where there is no answer.
  abbrev pub rows_of : Option (Page A) → List A
  rows_of none = []
  rows_of (some p) = p.rows

  -- The rows of the pages 1 to n, one after the other.
  abbrev pub first_pages : (A → Bool) → (List A → List A) → ℕ → ℕ → List A → List A
  first_pages matches order size zero table = []
  first_pages matches order size (suc n) table =
      first_pages matches order size n table
      ++ rows_of (common_list matches order (suc n) size table)

  -- The number of pages that an answer names; 0 where there is no answer.
  abbrev pub total_of : Option (Page A) → ℕ
  total_of none = 0
  total_of (some p) = p.total_page
