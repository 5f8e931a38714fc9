-- ===== src/App/Traffic/Get.antt =====
-- Reading a test (enova/app/service.py, `get_test`).
use enova.Prelude.{
  ◌⊎◌, ◌≡◌, refl, sym, subst, arith, true, String, [], ◌∷◌, Option, none, some, str_eq, eq_iff, ◌≢◌,
}
use enova.Constant.{TestStatus, test_status}
use enova.App.Store.{
  Db, Test, World, Result, ok, err, crash, stop_injector, end_session, in_session, or_crash, ◌>>=◌,
}
use enova.App.Injection.{Machine, stop, status}
use enova.App.Report.{update_test_info_when_finish}
use enova.App.Escaler.{◌>>=◌ as and_then}
use enova.App.Traffic.{
  find_test, merge_test, collect, by_state, sync_running, has_ended, get_found, get_test,
}

-- The file system: what is read in a directory stands in it.
abbrev pub Stands : Machine → Type 0
Stands m = (id : String) → m.listdir id ≡ [] → m.read_csv id ≡ none

-- The states that docker has for a container; "success" is none of them.
abbrev pub Docker : Machine → Type 0
Docker m = (s : String) → status m ≡ some (some s) → s ≢ test_status.value TestStatus.success

-- The container is gone or has ended.
abbrev pub Ended : Machine → Type 0
Ended m = (status m ≡ some none) ⊎ (status m ≡ some (some "exited"))

-- The container has a state, and has not ended.
abbrev pub Going : Machine → Type 0
Going m = (s : String) × (status m ≡ some (some s)) × (s ≢ "exited")

-- What a request for a test has found and changed.
abbrev pub Read : Machine → World → Test → Test → World → Type 0
Read m w t t' w' =
    ((t' ≡ t) × (w' ≡ w) × ((t.test_status ≢ "running") ⊎ Going m))
    ⊎ ((t.test_status ≡ "running")
        × Ended m
        × (t'.test_status ≡ "success")
        × (w'.db.tests ≡ merge_test t' w.db.tests)
        × (w'.calls ≡ stop_injector ∷ w.calls))

collect_lost :
    (m : Machine) (t : Test) (w : World)
    → m.read_csv t.test_id ≡ none
    → (collect m t w).0 ≡ err crash
unfolding stop update_test_info_when_finish
collect_lost m t w lost = ground arith

state_lost :
    (m : Machine) (t : Test) (state : Option String) (w : World)
    → m.read_csv t.test_id ≡ none
    → has_ended state ≡ true
    → (by_state m t state w).0 ≡ err crash
state_lost m t none w lost ended = collect_lost m t w lost
state_lost m t (some s) w lost ended = rw ended (collect_lost m t w lost)

sync_lost :
    (m : Machine) (t : Test) (w : World) {state : Option String}
    → status m ≡ some state
    → t.test_status ≡ "running"
    → m.read_csv t.test_id ≡ none
    → has_ended state ≡ true
    → (sync_running m t w).0 ≡ err crash
sync_lost m t w {state} answer running lost ended =
    let is : str_eq t.test_status "running" ≡ true = (eq_iff t.test_status "running").1 running in
    rw is (
      subst (λ o. ((or_crash o >>= by_state m t) w).0 ≡ err crash) (sym answer)
        (state_lost m t state w lost ended))

ended_lost :
    (p : Result Test × World) (before : Db)
    → p.0 ≡ err crash
    → ((end_session p before).0 ≡ err crash) × ((end_session p before).1.db ≡ before)
ended_lost (ok t, w) before h = cc
ended_lost (err e, w) before h = (h, refl)

-- A running test whose container has ended without a readable report: each request for it raises,
-- and keeps the tables as they were, so that the test stays "running".
pub get_test-lost :
    (m : Machine) (id : String) (w : World) {t : Test} {state : Option String}
    → find_test id w.db.tests ≡ some t
    → t.test_status ≡ "running"
    → status m ≡ some state
    → has_ended state ≡ true
    → m.read_csv t.test_id ≡ none
    → ((get_test m id w).0 ≡ err crash) × ((get_test m id w).1.db ≡ w.db)
unfolding get_test in_session
get_test-lost m id w {t} there running answer ended lost =
    ended_lost (get_found m (find_test id w.db.tests) w) w.db (
      subst (λ o. (get_found m o w).0 ≡ err crash) (sym there)
        (sync_lost m t w answer running lost ended))
