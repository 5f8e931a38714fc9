-- ===== src/App/Store/Bind.antt =====
-- Taking a finished `do` block apart.
use enova.Error.{ErrorClass}
use enova.Prelude.{
  ap, Bool, true, false, Option, none, some, ◌∙◌, subst, sym, arith, ◌≡◌, refl, ◌⊎◌, inl, inr,
}
use enova.App.Store.{
  Db, World, Result, ok, err, Failure, Action, or_crash, raise_if, in_session, end_session, ◌>>=◌,
}

module _ {A B : Type 0} (f : A → Action B) where
  inverse_ok :
      (r : Result A) (w1 : World) {b : B} {w' : World}
      → (elim r [ ok a ↦ f a w1 | err e ↦ (err e, w1) ]) ≡ (ok b, w')
      → (a : A) × (r ≡ ok a) × (f a w1 ≡ (ok b, w'))
  inverse_ok (ok a) w1 h = (a, refl, h)
  inverse_ok (err e) w1 h = cc

  -- A block that returned: its first step returned, and the rest did.
  pub >>=-eq-ok :
      (m : Action A) (w : World) {b : B} {w' : World}
      → (m >>= f) w ≡ (ok b, w')
      → (a : A) × ((m w).0 ≡ ok a) × (f a (m w).1 ≡ (ok b, w'))
  >>=-eq-ok m w h = inverse_ok (m w).0 (m w).1 h

  inverse_err :
      (r : Result A) (w1 : World) {e : Failure} {w' : World}
      → (elim r [ ok a ↦ f a w1 | err e ↦ (err e, w1) ]) ≡ (err e, w')
      → ((r ≡ err e) × (w1 ≡ w')) ⊎ ((a : A) × (r ≡ ok a) × (f a w1 ≡ (err e, w')))
  inverse_err (ok a) w1 h = inr (a, refl, h)
  inverse_err (err e) w1 h = inl (cc, cc)

  -- A block that raised: its first step raised, or the rest did.
  pub >>=-eq-err :
      (m : Action A) (w : World) {e : Failure} {w' : World}
      → (m >>= f) w ≡ (err e, w')
      → (((m w).0 ≡ err e) × ((m w).1 ≡ w'))
        ⊎ ((a : A) × ((m w).0 ≡ ok a) × (f a (m w).1 ≡ (err e, w')))
  >>=-eq-err m w h = inverse_err (m w).0 (m w).1 h

  -- The same where the first step only reads.
  pub reading-eq-ok :
      (m : Action A) (w : World) {b : B} {w' : World}
      → (m w).1 ≡ w
      → (m >>= f) w ≡ (ok b, w')
      → (a : A) × ((m w).0 ≡ ok a) × (f a w ≡ (ok b, w'))
  reading-eq-ok m w {b} {w'} same h =
      let (a, returned, rest) = >>=-eq-ok m w h in
      (a, returned, subst (λ v. f a v ≡ (ok b, w')) same rest)

  pub reading-eq-err :
      (m : Action A) (w : World) {e : Failure} {w' : World}
      → (m w).1 ≡ w
      → (m >>= f) w ≡ (err e, w')
      → (w' ≡ w) ⊎ ((a : A) × ((m w).0 ≡ ok a) × (f a w ≡ (err e, w')))
  reading-eq-err m w {e} {w'} same h = elim (>>=-eq-err m w h) [
    | inl (_, there) ↦ inl (sym there ∙ same)
    | inr (a, returned, rest) ↦ inr (a, returned, subst (λ v. f a v ≡ (err e, w')) same rest)
  ]

  pub err_bind :
      (m : Action A) (w : World) {e : Failure} {w' : World}
      → m w ≡ (err e, w')
      → (m >>= f) w ≡ (err e, w')
  err_bind m w h = err_through (m w) h
    where
      err_through :
          (p : Result A × World) {e : Failure} {w' : World}
          → p ≡ (err e, w')
          → (elim p.0 [ ok a ↦ f a p.1 | err e ↦ (err e, p.1) ]) ≡ (err e, w')
      err_through (ok a, w1) h = cc
      err_through (err e, w1) h = ground arith

-- A block whose first step returned goes on with the rest.
pub ok_bind :
    {A B : Type 0}
    → (f : A → Action B) (m : Action A) (w : World) {a : A} {w1 : World} → m w ≡ (ok a, w1)
    → (m >>= f) w ≡ f a w1
ok_bind {A} {B} f m w {a} {w1} h = ap (λ (p : Result A × World). ◌>>=◌ (λ _. p) f w) h

module _ {A : Type 0} where
  ended_ok :
      (r : Result A) (w1 : World) (before : Db) {a : A} {w' : World}
      → end_session (r, w1) before ≡ (ok a, w')
      → ◌≡◌ {A = Result A × World} (r, w1) (ok a, w')
  ended_ok (ok a) w1 before h = h
  ended_ok (err e) w1 before h = cc

  -- A session that returned has committed what its body did.
  pub in_session-eq-ok :
      (m : Action A) (w : World) {a : A} {w' : World}
      → in_session m w ≡ (ok a, w')
      → m w ≡ (ok a, w')
  unfolding in_session
  in_session-eq-ok m w h = ended_ok (m w).0 (m w).1 w.db h

  ended_err :
      (r : Result A) (w1 : World) (before : Db) {e : Failure} {w' : World}
      → end_session (r, w1) before ≡ (err e, w')
      → (r ≡ err e) × (w'.db ≡ before) × (w'.calls ≡ w1.calls)
  ended_err (ok a) w1 before h = cc
  ended_err (err e) w1 before h = ground arith

  -- A session that raised has kept the tables, and the calls of its body.
  pub in_session-eq-err :
      (m : Action A) (w : World) {e : Failure} {w' : World}
      → in_session m w ≡ (err e, w')
      → ((m w).0 ≡ err e) × (w'.db ≡ w.db) × (w'.calls ≡ (m w).1.calls)
  unfolding in_session
  in_session-eq-err m w h = ended_err (m w).0 (m w).1 w.db h

pub or_crash_same : {A : Type 0} → (o : Option A) (w : World) → (or_crash o w).1 ≡ w
or_crash_same none w = refl
or_crash_same (some a) w = refl

pub raise_if_same : (b : Bool) (c : ErrorClass) (w : World) → (raise_if b c w).1 ≡ w
raise_if_same true c w = refl
raise_if_same false c w = refl

pub raise_if_ok : (b : Bool) (c : ErrorClass) (w : World) → (raise_if b c w).0 ≡ ok tt → b ≡ false
raise_if_ok true c w h = cc
raise_if_ok false c w h = refl

pub or_crash_ok :
    {A : Type 0} → (o : Option A) (w : World) {a : A} → (or_crash o w).0 ≡ ok a → o ≡ some a
or_crash_ok none w h = cc
or_crash_ok (some a) w h = cc
