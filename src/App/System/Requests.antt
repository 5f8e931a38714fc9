-- ===== src/App/System/Requests.antt =====
-- The requests that start no test (enova/app/service.py).
use enova.Prelude.{
  ◌≡◌, ◌≢◌, refl, sym, ap, String, Bool, true, false, List, [], ◌∷◌, Option, none, some, inl, inr,
  Bool-cases, str_eq, eq_iff, if◌then◌else◌,
}
use enova.Error.{test_not_exist}
use enova.App.Store.{
  Action, Test, pure, raised, crash, gets, or_crash, in_session, set_tests, ◌>>=◌, ◌>>◌,
}
use enova.App.Injection.{Machine, stop, status, Sample}
use enova.App.Escaler.{◌>>=◌ as and_then}
use enova.App.Report.{
  ModelMetric, finished, status_of, build_model_metric, update_test_info_when_finish,
}
use enova.App.Traffic
use enova.App.Traffic.{
  is_unfinished, find_test, Handed, row, has_ended, merged, collect, refresh, by_state, get_found,
  get_test, sync_state, sync_test, sync_tests, list_test, delete_test,
}
use enova.App.Traffic.Get.{Docker}
use enova.App.System.Preserve.{
  Preserves-bind, Preserves-in_session, Preserves-or_crash, Preserves-if, Preserves,
}
use enova.App.System.Settle.{
  settling, merged-Settles, pure-Settles, fail-Settles, stop-Settles, gets-Settles,
}

status_of_ended :
    (names : List String) (t : Test) → t.test_status ≡ status_of names → is_unfinished t ≡ false
status_of_ended [] t h = rw h refl
status_of_ended (x ∷ xs) t h = rw h refl

finish_ended :
    (m : Machine) (t : Test) (t' : Test)
    → update_test_info_when_finish m t ≡ some t'
    → is_unfinished t' ≡ false
unfolding update_test_info_when_finish
finish_ended m t t' h = by_report (m.read_csv t.test_id) h
  where
    by_metric :
        (pdf : List Sample) (metric : Option ModelMetric)
        → and_then metric (λ metric. some (finished m t pdf metric)) ≡ some t'
        → is_unfinished t' ≡ false
    by_metric pdf none h = cc
    by_metric pdf (some metric) h =
        status_of_ended (m.listdir t.test_id) t'
          (ap (λ o. elim o [ none ↦ "" | some u ↦ u.test_status ]) (sym h))

    by_report :
        (report : Option (List Sample))
        → and_then report
            (λ pdf. and_then (build_model_metric m t) (λ metric. some (finished m t pdf metric)))
          ≡ some t'
        → is_unfinished t' ≡ false
    by_report none h = cc
    by_report (some pdf) h = by_metric pdf (build_model_metric m t) h

pub finish-Settles :
    (m : Machine) (t : Test) → Preserves settling (merged (update_test_info_when_finish m t))
finish-Settles m t = merged-Settles (update_test_info_when_finish m t) (finish_ended m t)

pub collect-Settles : (m : Machine) (t : Test) → Preserves settling (collect m t)
collect-Settles m t =
    Preserves-bind settling (stop m) (λ _. merged (update_test_info_when_finish m t))
      (stop-Settles m) (λ _. finish-Settles m t)

then_pure-Settles :
    {A B : Type 0} (a : Action A) (b : B) → Preserves settling a → Preserves settling (a >> pure b)
then_pure-Settles a b h = Preserves-bind settling a (λ _. pure b) h (λ _. pure-Settles b)

by_state-Settles :
    (m : Machine) (t : Test) (state : Option String)
    → ((s : String) → state ≡ some s → s ≢ "success")
    → Preserves settling (by_state m t state)
by_state-Settles m t none docker = collect-Settles m t
by_state-Settles m t (some s) docker =
    Preserves-if settling (has_ended (some s)) (collect m t) going (collect-Settles m t)
      (elim (Bool-cases (str_eq s "success")) [
        | inl odd ↦ elim (docker s refl ((eq_iff s "success").0 odd)) [ ]
        | inr other ↦ λ w. rw other (pure-Settles t w)
      ])
  where
    going : Action Test
    going = if str_eq s "success" then refresh m t else pure t

answered-Settles :
    (m : Machine) (t : Test) (o : Option (Option String))
    → ((s : String) → o ≡ some (some s) → s ≢ "success")
    → Preserves settling (or_crash o >>= by_state m t)
answered-Settles m t none docker = fail-Settles Test crash
answered-Settles m t (some state) docker =
    by_state-Settles m t state (λ s is. docker s (ap some is))

get_found-Settles :
    (m : Machine) (found : Option Test) → Docker m → Preserves settling (get_found m found)
get_found-Settles m none docker = fail-Settles Test (raised test_not_exist)
get_found-Settles m (some t) docker =
    Preserves-if settling (str_eq t.test_status "running") (or_crash (status m) >>= by_state m t)
      (pure t) (answered-Settles m t (status m) docker) (pure-Settles t)

pub get_test-Settles : (m : Machine) (id : String) → Docker m → Preserves settling (get_test m id)
unfolding get_test
get_test-Settles m id docker =
    Preserves-in_session settling (λ w. get_found m (find_test id w.db.tests) w)
      (λ w. get_found-Settles m (find_test id w.db.tests) docker w)

sync_state-Settles :
    (m : Machine) (t : Test) (state : Option String) → Preserves settling (sync_state m t state)
sync_state-Settles m t state =
    Preserves-if settling (has_ended state) (collect m t >> pure tt) (pure tt)
      (then_pure-Settles (collect m t) tt (collect-Settles m t)) (pure-Settles tt)

sync_test-Settles : (m : Machine) (t : Test) → Preserves settling (sync_test m t)
sync_test-Settles m t =
    Preserves-if settling (str_eq t.test_status "running") (or_crash (status m) >>= sync_state m t)
      settled
      (Preserves-bind settling (or_crash (status m)) (sync_state m t)
        (Preserves-or_crash settling (status m)) (sync_state-Settles m t))
      (Preserves-if settling (str_eq t.test_status "success") again (pure tt)
        (then_pure-Settles (merged (update_test_info_when_finish m t)) tt (finish-Settles m t))
        (pure-Settles tt))
  where
    again : Action (Unit {0})
    again = merged (update_test_info_when_finish m t) >> pure tt

    settled : Action (Unit {0})
    settled = if str_eq t.test_status "success" then again else pure tt

sync_tests-Settles : (m : Machine) (rows : List Test) → Preserves settling (sync_tests m rows)
unfolding sync_tests
sync_tests-Settles m [] = pure-Settles tt
sync_tests-Settles m (t ∷ rest) =
    Preserves-bind settling (sync_test m t) (λ _. sync_tests m rest) (sync_test-Settles m t)
      (λ _. sync_tests-Settles m rest)

pub list_test-Settles :
    (m : Machine) (page : List Test → List Test) → Preserves settling (list_test m page)
unfolding list_test
list_test-Settles m page =
    Preserves-bind settling (in_session (gets (λ w. page w.db.tests)))
      (λ found. in_session (sync_tests m found) >> pure found)
      (Preserves-in_session settling (gets (λ w. page w.db.tests))
        (gets-Settles (λ w. page w.db.tests)))
      (λ found.
        then_pure-Settles (in_session (sync_tests m found)) found
          (Preserves-in_session settling (sync_tests m found) (sync_tests-Settles m found)))

delete_found-Settles :
    (m : Machine) (delete : Handed → Option (List Test → List Test)) (found : Option Test)
    → ((t : Test) → delete (row t) ≡ none)
    → Preserves settling (Traffic.delete_found m delete found)
delete_found-Settles m delete none refused = fail-Settles Bool (raised test_not_exist)
delete_found-Settles m delete (some t) refused =
    Preserves-bind settling (stop m) (λ _. or_crash (delete (row t)) >>= change) (stop-Settles m)
      (λ _ w. rw (refused t) (fail-Settles Bool crash w))
  where
    change : (List Test → List Test) → Action Bool
    change f = do rows ← gets (λ w. w.db.tests); set_tests (f rows); pure true

pub delete_test-Settles :
    (m : Machine) (delete : Handed → Option (List Test → List Test)) (id : String)
    → ((t : Test) → delete (row t) ≡ none)
    → Preserves settling (delete_test m delete id)
unfolding delete_test
delete_test-Settles m delete id refused =
    Preserves-in_session settling (λ w. Traffic.delete_found m delete (find_test id w.db.tests) w)
      (λ w. delete_found-Settles m delete (find_test id w.db.tests) refused w)
