-- ===== src/Server/Bounds.antt =====
-- The pages that a validated request asks for (enova/server/restful/serializer.py and service.py).
use enova.Prelude.{◌≡◌, ℕ, ◌*◌, ◌≤◌, ◌&&◌, Option, none, some, if◌then◌else◌, length, leb}
use enova.Server.{Page}

-- The bounds of `CONFIG.api`: `default_min_page` and the others.
pub record Limits : Type 0 where
  pub min_page : ℕ
  pub max_page : ℕ
  pub min_size : ℕ
  pub max_size : ℕ

-- `EmergingAIQueryRequestBaseModel`: the page and the size of a request, or the refusal of pydantic.
abbrev or_default : ℕ → Option ℕ → ℕ
or_default d none = d
or_default d (some n) = n

abbrev checked : Limits → ℕ → ℕ → Option (ℕ × ℕ)
checked l page size =
    if leb l.min_page page && leb page l.max_page && leb l.min_size size && leb size l.max_size
    then some (page, size)
    else none

unfoldable pub validate : Limits → Option ℕ → Option ℕ → Option (ℕ × ℕ)
validate l page size = checked l (or_default 1 page) (or_default 10 size)

module _ {A : Type 0} where
  -- A page within the bounds: no more rows than asked for, all of them counted, and pages enough for all.
  abbrev pub Bounded : Limits → ℕ → ℕ → Option (Page A) → Type 0
  Bounded l page size none = ⊥
  Bounded l page size (some p) =
      (p.page ≡ page)
      × (l.min_page ≤ page)
      × (page ≤ l.max_page)
      × (p.num ≡ length p.rows)
      × (p.num ≤ size)
      × (size ≤ l.max_size)
      × (p.total_num ≤ size * p.total_page)
