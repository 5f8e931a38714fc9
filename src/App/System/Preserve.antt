-- ===== src/App/System/Preserve.antt =====
-- What an action does to the state, up to a relation that its steps satisfy: the rules for `do` blocks
-- and for the session of enova/database/relation/transaction/session.py.
use enova.Prelude.{Bool, true, false, Option, none, some, if◌then◌else◌}
use enova.Error.{ErrorClass}
use enova.App.Store.{
  World, Result, ok, err, Action, raise_if, or_crash, in_session, end_session, ◌>>=◌,
}

pub record Preorder : Type 1 where
  pub Rel : World → World → Type 0
  pub here : (w : World) → Rel w w
  pub through : (w w1 w2 : World) → Rel w w1 → Rel w1 w2 → Rel w w2
  -- An exception of a session keeps the tables that it found.
  pub restored : (w w1 : World) → Rel w w1 → Rel w (record w1 { db = w.db })

module _ (o : Preorder) where
  open o use {Rel, here, through, restored}

  abbrev pub Preserves : {A : Type 0} → Action A → Type 0
  Preserves m = (w : World) → Rel w (m w).1

  bound :
      {A B : Type 0} (f : A → Action B) (w w1 : World) (r : Result A)
      → Rel w w1
      → ((a : A) → Preserves (f a))
      → Rel w (◌>>=◌ (λ _. (r, w1)) f w).1
  bound f w w1 (ok a) first rest = through w w1 (f a w1).1 first (rest a w1)
  bound f w w1 (err e) first rest = first

  pub Preserves-bind :
      {A B : Type 0} (m : Action A) (f : A → Action B)
      → Preserves m
      → ((a : A) → Preserves (f a))
      → Preserves (m >>= f)
  Preserves-bind m f first rest w = bound f w (m w).1 (m w).0 (first w) rest

  ended : {A : Type 0} (w w1 : World) (r : Result A) → Rel w w1 → Rel w (end_session (r, w1) w.db).1
  ended w w1 (ok a) h = h
  ended w w1 (err e) h = restored w w1 h

  pub Preserves-in_session : {A : Type 0} (m : Action A) → Preserves m → Preserves (in_session m)
  unfolding in_session
  Preserves-in_session m h w = ended w (m w).1 (m w).0 (h w)

  pub Preserves-or_crash : {A : Type 0} (a : Option A) → Preserves (or_crash a)
  Preserves-or_crash none w = here w
  Preserves-or_crash (some a) w = here w

  pub Preserves-raise_if : (b : Bool) (c : ErrorClass) → Preserves (raise_if b c)
  Preserves-raise_if true c w = here w
  Preserves-raise_if false c w = here w

  pub Preserves-if :
      {A : Type 0} (b : Bool) (m k : Action A)
      → Preserves m
      → Preserves k
      → Preserves (if b then m else k)
  Preserves-if true m k first second = first
  Preserves-if false m k first second = second
