-- ===== src/App/Traffic/Refuse.antt =====
-- When a test is not started (enova/app/service.py, `create_test`).
use enova.Prelude.{
  inr, sym, inl, ◌≢◌, ◌∙◌, subst, ap, ◌≤◌, ◌≡◌, true, false, String, arith, if◌then◌else◌, refl,
}
use enova.Error.{test_start}
use enova.Value.{Value}
use enova.App.Store.{
  Result, Action, or_crash, Failure, err, Instance, Test, World, ok, in_session, end_session,
  raise_if, ◌>>=◌,
}
use enova.App.Store.Bind.{>>=-eq-err, reading-eq-err, err_bind, or_crash_same, raise_if_same}
use enova.App.Injection.{deployed, Machine}
use enova.App.Instances.{Replies, get_instance}
use enova.App.Traffic.{
  get, create_test, new_test, is_running, launch_if_running, TestParams, launch, check_unfinished,
  ℕ, start_on, unfinished,
}
use enova.App.Traffic.Create.{Quiet, get_instance-Quiet, launch_db, check_err, create_test-Launched}

after_error :
    (m : Machine) (test_id : String) (now : ℕ) (params : TestParams) (data_set : Value)
    (i : Instance) (w : World) {e : Failure} {w' : World}
    → launch_if_running m test_id now params data_set i w ≡ (err e, w')
    → w'.db ≡ w.db
after_error m test_id now params data_set i w h =
    let session = in_session (launch m i (new_test test_id now params data_set)) in
    let check = raise_if (if is_running i then false else true) test_start in
    elim (reading-eq-err (λ _. session) check w
      (raise_if_same (if is_running i then false else true) test_start w) h) [
        | inl same ↦ ap (λ v. v.db) same
        | inr (_, _, rest) ↦ launch_db m i (new_test test_id now params data_set) w rest
      ]

-- Whatever stops the start of a test, the tests are as they were.
pub create_test-error :
    (m : Machine) (r : Replies) (test_id : String) (now : ℕ) (params : TestParams) (w : World)
    {e : Failure} {w' : World}
    → create_test m r test_id now params w ≡ (err e, w')
    → w'.db.tests ≡ w.db.tests
unfolding create_test
create_test-error m r test_id now params w {e} {w'} h =
    let go = λ (d : Value).
      get_instance r params.instance_id >>= launch_if_running m test_id now params d in
    let quiet = get_instance-Quiet r params.instance_id w in
    elim (reading-eq-err go (or_crash (get "data_set" params.test_spec)) w
      (or_crash_same (get "data_set" params.test_spec) w) h) [
        | inl same ↦ ap (λ v. v.db.tests) same
        | inr (d, _, rest) ↦
            elim (>>=-eq-err (launch_if_running m test_id now params d)
              (get_instance r params.instance_id) w rest) [
                | inl (_, same) ↦ ap (λ v. v.db.tests) (sym same) ∙ quiet.0
                | inr (i, _, last) ↦
                    ap (λ d. d.tests)
                      (after_error m test_id now params d i (get_instance r params.instance_id w).1
                        last)
                    ∙ quiet.0
              ]
      ]

Quiet-through : (w w1 w2 : World) → Quiet w w1 → Quiet w1 w2 → Quiet w w2
Quiet-through w w1 w2 (t, c) (t', c') = (t' ∙ t, c' ∙ c)

Quiet-result :
    {A B : Type 0}
    → (f : A → Action B) (w w1 : World) (x : Result A) → Quiet w w1
    → ((a : A) → Quiet w1 (f a w1).1)
    → Quiet w (◌>>=◌ (λ _. (x, w1)) f w).1
Quiet-result f w w1 (ok a) first rest = Quiet-through w w1 (f a w1).1 first (rest a)
Quiet-result f w w1 (err e) first rest = first

Quiet-bind :
    {A B : Type 0}
    → (m : Action A) (f : A → Action B) (w : World) → Quiet w (m w).1
    → ((a : A) → Quiet (m w).1 (f a (m w).1).1)
    → Quiet w ((m >>= f) w).1
Quiet-bind m f w first rest = Quiet-result f w (m w).1 (m w).0 first rest

launch_refused :
    (m : Machine) (i : Instance) (t : Test) (w : World)
    → 1 ≤ unfinished w.db.tests
    → Quiet w (in_session (launch m i t) w).1
unfolding in_session
launch_refused m i t w busy =
    let stopped =
      err_bind (λ _. or_crash (deployed "port" i) >>= start_on m i t) check_unfinished w
        (check_err w busy) in
    subst (λ p. Quiet w (end_session p w.db).1) (sym stopped) (refl, refl)

same-Quiet : (w : World) {w1 : World} → w1 ≡ w → Quiet w w1
same-Quiet w e = (ap (λ v. v.db.tests) e, ap (λ v. v.calls) e)

if_running_refused :
    (m : Machine) (r : Replies) (test_id : String) (now : ℕ) (params : TestParams) (d : Value)
    (w : World)
    → 1 ≤ unfinished w.db.tests
    → Quiet w ((get_instance r params.instance_id >>= launch_if_running m test_id now params d) w).1
if_running_refused m r test_id now params d w busy =
    let quiet = get_instance-Quiet r params.instance_id w in
    let w1 = (get_instance r params.instance_id w).1 in
    let busy1 : 1 ≤ unfinished w1.db.tests = subst (λ xs. 1 ≤ unfinished xs) (sym quiet.0) busy in
    Quiet-bind (get_instance r params.instance_id) (launch_if_running m test_id now params d) w
      quiet
      (λ i.
        let check = raise_if (if is_running i then false else true) test_start in
        let same = raise_if_same (if is_running i then false else true) test_start w1 in
        Quiet-bind check (λ _. in_session (launch m i (new_test test_id now params d))) w1
          (same-Quiet w1 same)
          (λ _.
            launch_refused m i (new_test test_id now params d) (check w1).1
              (subst (λ v. 1 ≤ unfinished v.db.tests) (sym same) busy1)))

-- While a test is unfinished, a request to start one changes no test, starts and stops no container,
-- makes and deletes no deployment, and does not succeed. It may read: the instance is looked up and
-- synchronised before.
pub create_test-unfinished :
    (m : Machine) (r : Replies) (test_id : String) (now : ℕ) (params : TestParams) (w : World)
    → 1 ≤ unfinished w.db.tests
    → Quiet w (create_test m r test_id now params w).1
      × ((t : Test) → (create_test m r test_id now params w).0 ≢ ok t)
unfolding create_test
create_test-unfinished m r test_id now params w busy = (
  Quiet-bind (or_crash (get "data_set" params.test_spec)) go w
      (same-Quiet w (or_crash_same (get "data_set" params.test_spec) w))
      (λ d.
        if_running_refused m r test_id now params d (or_crash (get "data_set" params.test_spec) w).1
          (subst (λ v. 1 ≤ unfinished v.db.tests)
            (sym (or_crash_same (get "data_set" params.test_spec) w)) busy)),
  λ t e.
      not_ok t (create_test m r test_id now params w).1
        (ap (λ x. (x, (create_test m r test_id now params w).1)) e),
)
  where
    go : Value → Action Test
    go d = get_instance r params.instance_id >>= launch_if_running m test_id now params d

    not_ok : (t : Test) (w' : World) → create_test m r test_id now params w ≡ (ok t, w') → ⊥
    not_ok t w' h =
        let (clear, _, _, _, _) = create_test-Launched m r test_id now params w h in omega arith
