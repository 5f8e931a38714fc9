-- ===== src/App/Traffic/Delete.antt =====
-- Deleting a test (enova/app/service.py, `delete_test`).
use enova.Prelude.{
  ◌⊎◌, ◌≡◌, refl, arith, Bool, String, List, ◌∷◌, Option, none, some, inl, inr, ◌≢◌,
}
use enova.Error.{test_not_exist}
use enova.App.Store.{
  Test, World, Result, err, raised, crash, stop_injector, end_session, in_session,
}
use enova.App.Injection.{Machine, stop}
use enova.App.Traffic.{Handed, row, find_test, delete_found, delete_test}

-- How a deletion ends where sqlalchemy refuses a row of a result.
abbrev pub Refused : String → World → Result Bool × World → Type 0
Refused id w (r, w') =
    ((find_test id w.db.tests ≡ none) × (r ≡ err (raised test_not_exist)) × (w' ≡ w))
    ⊎ ((find_test id w.db.tests ≢ none)
        × (r ≡ err crash)
        × (w'.db ≡ w.db)
        × (w'.calls ≡ stop_injector ∷ w.calls))

delete_found-Refused :
    (m : Machine) (delete : Handed → Option (List Test → List Test)) (id : String) (w : World)
    (found : Option Test)
    → ((t : Test) → delete (row t) ≡ none)
    → find_test id w.db.tests ≡ found
    → Refused id w (end_session (delete_found m delete found w) w.db)
unfolding stop
delete_found-Refused m delete id w none unmapped missing = inl (missing, refl, refl)
delete_found-Refused m delete id w (some t) unmapped there =
    let refused = unmapped t in inr ((λ e. cc), ground arith, ground arith, ground arith)

-- sqlalchemy refuses to delete what is no mapped object. The row that `first()` answers is none, so
-- no request deletes a test: an id that is not found raises `test_not_exist` with nothing changed, and
-- any other raises sqlalchemy's exception after the injector was stopped, with the tables as they were.
pub delete_test-Refused :
    (m : Machine) (delete : Handed → Option (List Test → List Test)) (id : String) (w : World)
    → ((t : Test) → delete (row t) ≡ none)
    → Refused id w (delete_test m delete id w)
unfolding delete_test in_session
delete_test-Refused m delete id w unmapped =
    delete_found-Refused m delete id w (find_test id w.db.tests) unmapped refl
