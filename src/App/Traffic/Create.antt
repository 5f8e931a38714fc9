-- ===== src/App/Traffic/Create.antt =====
-- Starting a test (enova/app/service.py, `create_test`).
use enova.Prelude.{
  sym, ◌∙◌, ap, lt→ltb, ◌≤◌, ◌+◌, ◌≡◌, true, false, Bool, List, [], ◌∷◌, ◌++◌, Option, none, some,
  String, arith, if◌then◌else◌, refl,
}
use enova.Error.{test_start}
use enova.Value.{Value}
use enova.App.Store.{
  or_crash, Failure, raised, err, Instance, Test, World, ok, in_session, end_session, raise_if,
  ◌>>=◌, start_injector,
}
use enova.App.Store.Bind.{
  >>=-eq-ok, reading-eq-ok, in_session-eq-ok, in_session-eq-err, or_crash_same, raise_if_same,
  raise_if_ok,
}
use enova.App.Injection.{deployed, Machine, Request, run, start}
use enova.App.Instances.{Replies, get_instance, sync_found, find}
use enova.App.Traffic.{
  get, create_test, new_test, is_running, launch_if_running, TestParams, launch, check_unfinished,
  ℕ, start_on, add_started, unfinished, is_unfinished, as_running,
}

-- The tests and the calls of two states agree.
abbrev pub Quiet : World → World → Type 0
Quiet w w' = (w'.db.tests ≡ w.db.tests) × (w'.calls ≡ w.calls)

sync_found-Quiet :
    (r : Replies) (w : World) (found : Option Instance)
    → Quiet w (end_session (sync_found r found w) w.db).1
sync_found-Quiet r w none = (refl, refl)
sync_found-Quiet r w (some i) = (refl, refl)

pub get_instance-Quiet : (r : Replies) (id : String) (w : World) → Quiet w (get_instance r id w).1
unfolding get_instance in_session
get_instance-Quiet r id w = sync_found-Quiet r w (find id w.db.instances)

run_db : (m : Machine) (q : Request) (w : World) → (run m q w).1.db ≡ w.db
unfolding run
run_db m q w = ground arith

pub start_db :
    (m : Machine) (host port : Value) (t : Test) (i : Instance) (w : World)
    → (start m host port t i w).1.db ≡ w.db
unfolding start run
start_db m host port t i w = ground arith

start_ok :
    (m : Machine) (host port : Value) (t : Test) (i : Instance) (w : World) {b : Bool} {w' : World}
    → start m host port t i w ≡ (ok b, w')
    → (b ≡ true) × (w'.db ≡ w.db) × (w'.calls ≡ start_injector ∷ w.calls)
unfolding start run
start_ok m host port t i w h = ground arith

pub unfinished-append :
    (xs : List Test) (t : Test)
    → is_unfinished t ≡ true
    → unfinished (xs ++ t ∷ []) ≡ unfinished xs + 1
unfolding unfinished
unfinished-append [] t h = rw h
unfinished-append (x ∷ xs) t h = ground (arith, unfinished-append xs t h)

-- What a launch leaves.
abbrev pub Launched : World → Test → World → Type 0
Launched w t w' =
    (unfinished w.db.tests ≡ 0)
    × (w'.db.tests ≡ w.db.tests ++ t ∷ [])
    × (unfinished w'.db.tests ≡ 1)
    × (w'.calls ≡ start_injector ∷ w.calls)
    × (t.test_status ≡ "running")

added :
    (t : Test) (w w1 w' : World) {t' : Test} (b : Bool)
    → unfinished w.db.tests ≡ 0
    → b ≡ true
    → w1.db ≡ w.db
    → w1.calls ≡ start_injector ∷ w.calls
    → add_started t b w1 ≡ (ok t', w')
    → Launched w t' w'
added t w w1 w' b clear done same calls h =
    let one = unfinished-append w.db.tests (as_running t) refl in ground (arith, one)

start_on_ok :
    (m : Machine) (i : Instance) (t : Test) (port : Value) (w : World) {t' : Test} {w' : World}
    → unfinished w.db.tests ≡ 0
    → start_on m i t port w ≡ (ok t', w')
    → Launched w t' w'
start_on_ok m i t port w {t'} {w'} clear h =
    let (b, returned, rest) =
      >>=-eq-ok (add_started t) (start m m.default_enode_host port t i) w h in
    let (done, same, calls) =
      start_ok m m.default_enode_host port t i w (returned_state b returned) in
    added t w (start m m.default_enode_host port t i w).1 w' b clear done same calls rest
  where
    returned_state :
        (b : Bool)
        → (start m m.default_enode_host port t i w).0 ≡ ok b
        → start m m.default_enode_host port t i w
          ≡ (ok b, (start m m.default_enode_host port t i w).1)
    returned_state b e = cc

pub check_same : (w : World) → (check_unfinished w).1 ≡ w
unfolding check_unfinished
check_same w = ground arith

pub check_ok : (w : World) → (check_unfinished w).0 ≡ ok tt → unfinished w.db.tests ≡ 0
unfolding check_unfinished
check_ok w h = ground arith

pub check_err :
    (w : World) → 1 ≤ unfinished w.db.tests → check_unfinished w ≡ (err (raised test_start), w)
unfolding check_unfinished
check_err w h = rw (lt→ltb 0 (unfinished w.db.tests) h)

unnegate : (b : Bool) → (if b then false else true) ≡ false → b ≡ true
unnegate true h = refl
unnegate false h = cc

launch_ok :
    (m : Machine) (i : Instance) (t : Test) (w : World) {t' : Test} {w' : World}
    → launch m i t w ≡ (ok t', w')
    → Launched w t' w'
launch_ok m i t w h =
    let (_, clear, rest) =
      reading-eq-ok (λ _. or_crash (deployed "port" i) >>= start_on m i t) check_unfinished w
        (check_same w) h in
    let (port, _, last) =
      reading-eq-ok (start_on m i t) (or_crash (deployed "port" i)) w
        (or_crash_same (deployed "port" i) w) rest in
    start_on_ok m i t port w (check_ok w clear) last

running_ok :
    (m : Machine) (test_id : String) (now : ℕ) (params : TestParams) (data_set : Value)
    (i : Instance) (w : World) {t : Test} {w' : World}
    → launch_if_running m test_id now params data_set i w ≡ (ok t, w')
    → (is_running i ≡ true) × Launched w t w'
running_ok m test_id now params data_set i w h =
    let session = in_session (launch m i (new_test test_id now params data_set)) in
    let (_, running, rest) =
      reading-eq-ok (λ _. session) (raise_if (if is_running i then false else true) test_start) w
        (raise_if_same (if is_running i then false else true) test_start w) h in
    (
      unnegate (is_running i)
          (raise_if_ok (if is_running i then false else true) test_start w running),
      launch_ok m i (new_test test_id now params data_set) w
          (in_session-eq-ok (launch m i (new_test test_id now params data_set)) w rest),
    )

pub launch_db :
    (m : Machine) (i : Instance) (t : Test) (w : World) {e : Failure} {w' : World}
    → in_session (launch m i t) w ≡ (err e, w')
    → w'.db ≡ w.db
launch_db m i t w h = (in_session-eq-err (launch m i t) w h).1

launched_after : (w w1 w' : World) (t : Test) → Quiet w w1 → Launched w1 t w' → Launched w t w'
launched_after w w1 w' t (tests, calls) (clear, rows, one, called, state) = (
  ap unfinished (sym tests) ∙ clear,
  rows ∙ ap (λ xs. xs ++ t ∷ []) tests,
  one,
  called ∙ ap (λ cs. start_injector ∷ cs) calls,
  state,
)

-- A test that was started: no test was unfinished, one is now, which is the one that is returned; it
-- stands last in the table, is "running", and the injector was started once, after everything
-- that had been called.
pub create_test-Launched :
    (m : Machine) (r : Replies) (test_id : String) (now : ℕ) (params : TestParams) (w : World)
    {t : Test} {w' : World}
    → create_test m r test_id now params w ≡ (ok t, w')
    → Launched w t w'
unfolding create_test
create_test-Launched m r test_id now params w {t} {w'} h =
    let go = λ (d : Value).
      get_instance r params.instance_id >>= launch_if_running m test_id now params d in
    let (d, _, rest) =
      reading-eq-ok go (or_crash (get "data_set" params.test_spec)) w
        (or_crash_same (get "data_set" params.test_spec) w) h in
    let (i, _, last) =
      >>=-eq-ok (launch_if_running m test_id now params d) (get_instance r params.instance_id) w
        rest in
    let (tests, calls) = get_instance-Quiet r params.instance_id w in
    let (_, launched) =
      running_ok m test_id now params d i (get_instance r params.instance_id w).1 last in
    launched_after w (get_instance r params.instance_id w).1 w' t (tests, calls) launched
