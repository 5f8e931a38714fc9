-- ===== src/App/System/Launch.antt =====
-- A request to start a test launches at most once, and only when no test is unfinished
-- (enova/app/service.py, `create_test`).
use enova.Prelude.{◌≡◌, refl, ◌∙◌, ap, arith, ℕ, ◌≤◌, ◌+◌, String, Bool, true, false, if◌then◌else◌}
use enova.Error.{test_start}
use enova.Value.{get, Value}
use enova.App.Store.{
  World, Action, Result, ok, err, Test, Instance, or_crash, raise_if, in_session, end_session,
  ◌>>=◌,
}
use enova.App.Store.Bind.{or_crash_same, raise_if_same}
use enova.App.Injection.{Machine, run, start, deployed}
use enova.App.Instances.{Replies, get_instance}
use enova.App.Traffic.{
  TestParams, add_started, start_on, check_unfinished, launch, launch_if_running, new_test,
  is_running, create_test,
}
use enova.App.Traffic.Create.{get_instance-Quiet, check_same}
use enova.App.System.{starts}
use enova.App.System.Preserve.{Preorder, Preserves}

-- At most one launch more.
abbrev pub Once : World → World → Type 0
Once w w' = (starts w.calls ≤ starts w'.calls) × (starts w'.calls ≤ starts w.calls + 1)

-- No launch.
abbrev pub calm : Preorder
calm = record {
  Rel = λ w w'. starts w'.calls ≡ starts w.calls;
  here = λ w. refl;
  through = λ w w1 w2 a b. b ∙ a;
  restored = λ w w1 a. a;
}

calm_then :
    {A B : Type 0} (m : Action A) (f : A → Action B)
    → Preserves calm m
    → ((a : A) (w : World) → Once w (f a w).1)
    → (w : World) → Once w ((m >>= f) w).1
calm_then {A} {B} m f h rest w = by_result (m w).0 (m w).1 (h w)
  where
    by_result :
        (r : Result A) (w1 : World)
        → starts w1.calls ≡ starts w.calls
        → Once w (◌>>=◌ (λ _. (r, w1)) f w).1
    by_result (ok a) w1 same = omega (arith, rest a w1)
    by_result (err e) w1 same = omega arith

then_calm :
    {A B : Type 0} (m : Action A) (f : A → Action B)
    → ((w : World) → Once w (m w).1)
    → ((a : A) → Preserves calm (f a))
    → (w : World) → Once w ((m >>= f) w).1
then_calm {A} {B} m f h rest w = by_result (m w).0 (m w).1 (h w)
  where
    by_result : (r : Result A) (w1 : World) → Once w w1 → Once w (◌>>=◌ (λ _. (r, w1)) f w).1
    by_result (ok a) w1 once = omega (arith, rest a w1)
    by_result (err e) w1 once = omega arith

in_session-Once :
    {A : Type 0} (m : Action A)
    → ((w : World) → Once w (m w).1)
    → (w : World) → Once w (in_session m w).1
unfolding in_session
in_session-Once {A} m h w = by_result (m w).0 (m w).1 (h w)
  where
    by_result : (r : Result A) (w1 : World) → Once w w1 → Once w (end_session (r, w1) w.db).1
    by_result (ok a) w1 once = once
    by_result (err e) w1 once = once

same_calm : {A : Type 0} (m : Action A) → ((w : World) → (m w).1 ≡ w) → Preserves calm m
same_calm m h w = ap (λ v. starts v.calls) (h w)

start-Once :
    (m : Machine) (host port : Value) (t : Test) (i : Instance) (w : World)
    → Once w (start m host port t i w).1
unfolding start run starts
start-Once m host port t i w = ground arith

add_started-calm : (t : Test) (b : Bool) → Preserves calm (add_started t b)
add_started-calm t true w = refl
add_started-calm t false w = refl

launch-Once : (m : Machine) (i : Instance) (t : Test) (w : World) → Once w (launch m i t w).1
launch-Once m i t =
    calm_then check_unfinished (λ _. or_crash (deployed "port" i) >>= start_on m i t)
      (same_calm check_unfinished check_same)
      (λ _.
        calm_then (or_crash (deployed "port" i)) (start_on m i t)
          (same_calm (or_crash (deployed "port" i)) (or_crash_same (deployed "port" i)))
          (λ port.
            then_calm (start m m.default_enode_host port t i) (add_started t)
              (start-Once m m.default_enode_host port t i) (add_started-calm t)))

-- A request launches the injector at most once.
pub create_test-Once :
    (m : Machine) (r : Replies) (test_id : String) (now : ℕ) (params : TestParams) (w : World)
    → Once w (create_test m r test_id now params w).1
unfolding create_test
create_test-Once m r test_id now params =
    calm_then (or_crash (get "data_set" params.test_spec)) go
      (same_calm (or_crash (get "data_set" params.test_spec))
        (or_crash_same (get "data_set" params.test_spec)))
      (λ d.
        calm_then (get_instance r params.instance_id) (launch_if_running m test_id now params d)
          (λ w. ap starts (get_instance-Quiet r params.instance_id w).1)
          (λ i.
            calm_then (raise_if (stopped i) test_start)
              (λ _. in_session (launch m i (new_test test_id now params d)))
              (same_calm (raise_if (stopped i) test_start) (raise_if_same (stopped i) test_start))
              (λ _.
                in_session-Once (launch m i (new_test test_id now params d))
                  (launch-Once m i (new_test test_id now params d)))))
  where
    stopped : Instance → Bool
    stopped i = if is_running i then false else true

    go : Value → Action Test
    go d = get_instance r params.instance_id >>= launch_if_running m test_id now params d
