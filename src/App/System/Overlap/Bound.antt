-- ===== src/App/System/Overlap/Bound.antt =====
-- How many tests are unfinished when creations overlap (enova/app/service.py).
use enova.Prelude.{
  ◌≡◌, refl, ap, subst, sym, ◌∙◌, arith, ℕ, ◌+◌, ◌≤◌, String, Bool, [], ◌∷◌, Option, none, some,
  if◌then◌else◌, length, length-append, ltb, true, false,
}
use enova.Error.{test_start}
use enova.Value.{Value, get}
use enova.App.Store.{
  World, Instance, Test, Result, Action, ok, err, pure, raise_if, or_crash, in_session, end_session,
  ◌>>=◌, ◌>>◌,
}
use enova.App.Store.Bind.{>>=-eq-ok}
use enova.App.Injection.{Machine, start, deployed}
use enova.App.Instances.{Replies, get_instance}
use enova.App.Traffic.{
  TestParams, unfinished, new_test, is_running, check_unfinished, start_on, add_started, as_running,
  launch, launch_if_running, create_test, collect, merged,
}
use enova.App.Traffic.Create.{check_same, check_ok, start_db, unfinished-append}
use enova.App.Report.{update_test_info_when_finish}
use enova.App.System.Preserve.{
  Preserves, Preserves-bind, Preserves-in_session, Preserves-or_crash, Preserves-raise_if,
}
use enova.App.System.Settle.{Settles, settling, pure-Settles}
use enova.App.System.Hosts.{get_instance-Settles}
use enova.App.System.Requests.{collect-Settles, finish-Settles}
use enova.App.System.Refine.{settled}
use enova.App.System.Overlap.{
  count_half, start_half, Flow, Turn, counts, refuses, starts, serves, collects, completes, Run,
  at_rest, next_turn,
}

launch_halves :
    (m : Machine) (i : Instance) (t : Test) (w : World)
    → in_session (launch m i t) w ≡ (check_unfinished >>= λ _. start_half m (i, t)) w
unfolding in_session check_unfinished
launch_halves m i t w = by_check (ltb 0 (unfinished w.db.tests))
  where
    rest : Action Test
    rest = or_crash (deployed "port" i) >>= start_on m i t

    by_check :
        (b : Bool)
        → end_session ((raise_if b test_start >>= λ _. rest) w) w.db
          ≡ (raise_if b test_start >>= λ _. start_half m (i, t)) w
    by_check true = refl
    by_check false = refl

-- `create_test` is its two halves.
pub create_test-halves :
    (m : Machine) (r : Replies) (test_id : String) (now : ℕ) (params : TestParams) (w : World)
    → create_test m r test_id now params w ≡ (count_half r test_id now params >>= start_half m) w
unfolding create_test
create_test-halves m r test_id now params w = by_data (get "data_set" params.test_spec)
  where
    counted : Value → Instance → Action (Instance × Test)
    counted d i = do
      raise_if (if is_running i then false else true) test_start
      check_unfinished
      pure (i, new_test test_id now params d)

    joined :
        (p : Instance × Test) (q : Result (Unit {0}) × World)
        → (◌>>=◌ (λ _. q) (λ _. start_half m p) w)
          ≡ ◌>>=◌ (◌>>=◌ (λ _. q) (λ _. pure p)) (start_half m) w
    joined p (ok u, w1) = refl
    joined p (err e, w1) = refl

    by_running :
        (d : Value) (i : Instance) (w1 : World) (b : Bool)
        → (raise_if b test_start >>= λ _. in_session (launch m i (new_test test_id now params d)))
            w1
          ≡ ((raise_if b test_start >>= λ _.
                  check_unfinished >>= λ _. pure (i, new_test test_id now params d))
                >>= start_half m)
              w1
    by_running d i w1 true = refl
    by_running d i w1 false =
        let t = new_test test_id now params d in
        launch_halves m i t w1 ∙ joined (i, t) (check_unfinished w1)

    by_instance :
        (d : Value) (q : Result Instance × World)
        → ◌>>=◌ (λ _. q) (launch_if_running m test_id now params d) w
          ≡ ◌>>=◌ (◌>>=◌ (λ _. q) (counted d)) (start_half m) w
    by_instance d (ok i, w1) = by_running d i w1 (if is_running i then false else true)
    by_instance d (err e, w1) = refl

    by_data :
        (o : Option Value)
        → (or_crash o >>= λ d.
              get_instance r params.instance_id >>= launch_if_running m test_id now params d)
            w
          ≡ ((or_crash o >>= λ d. get_instance r params.instance_id >>= counted d) >>= start_half m)
              w
    by_data none = refl
    by_data (some d) = by_instance d (get_instance r params.instance_id w)

count_half-Settles :
    (r : Replies) (test_id : String) (now : ℕ) (params : TestParams)
    → Preserves settling (count_half r test_id now params)
count_half-Settles r test_id now params =
    Preserves-bind settling (or_crash (get "data_set" params.test_spec))
      (λ d. get_instance r params.instance_id >>= counted d)
      (Preserves-or_crash settling (get "data_set" params.test_spec))
      (λ d.
        Preserves-bind settling (get_instance r params.instance_id) (counted d)
          (get_instance-Settles r params.instance_id)
          (λ i.
            Preserves-bind settling (raise_if (if is_running i then false else true) test_start)
              (λ _. checked d i)
              (Preserves-raise_if settling (if is_running i then false else true) test_start)
              (λ _ w.
                Preserves-bind settling check_unfinished
                  (λ _. pure (i, new_test test_id now params d))
                  (λ w1. subst (Settles w1) (sym (check_same w1)) (pure-Settles tt w1))
                  (λ _. pure-Settles {A = Instance × Test} (i, new_test test_id now params d)) w)))
  where
    checked : Value → Instance → Action (Instance × Test)
    checked d i = do check_unfinished; pure (i, new_test test_id now params d)

    counted : Value → Instance → Action (Instance × Test)
    counted d i = do raise_if (if is_running i then false else true) test_start; checked d i

-- An action that returned, as a whole.
pub there : {A : Type 0} {q : Result A × World} {a : A} → q.0 ≡ ok a → q ≡ (ok a, q.1)
there {A} {q} e = λ j. (e j, q.1)

-- A count that lets a creation pass has found no unfinished test.
pub count_half_ok :
    (r : Replies) (test_id : String) (now : ℕ) (params : TestParams) (w : World)
    {p : Instance × Test}
    → (count_half r test_id now params w).0 ≡ ok p
    → unfinished (count_half r test_id now params w).1.db.tests ≡ 0
count_half_ok r test_id now params w {p} h =
    let (d, _, got) =
      >>=-eq-ok (λ d. get_instance r params.instance_id >>= counted d)
        (or_crash (get "data_set" params.test_spec)) w (there h) in
    let w0 = (or_crash (get "data_set" params.test_spec) w).1 in
    let (i, _, ran) = >>=-eq-ok (counted d) (get_instance r params.instance_id) w0 got in
    let w1 = (get_instance r params.instance_id w0).1 in
    let (_, _, checked) =
      >>=-eq-ok (λ _. check_unfinished >>= λ _. pure (i, new_test test_id now params d))
        (raise_if (if is_running i then false else true) test_start) w1 ran in
    let w2 = (raise_if (if is_running i then false else true) test_start w1).1 in
    let (_, clear, last) =
      >>=-eq-ok (λ _. pure (i, new_test test_id now params d)) check_unfinished w2 checked in
    let same : w2 ≡ (count_half r test_id now params w).1 =
      sym (check_same w2) ∙ ap (λ (q : Result (Instance × Test) × World). q.1) last in
    ap (λ v. unfinished v.db.tests) (sym same) ∙ check_ok w2 clear
  where
    counted : Value → Instance → Action (Instance × Test)
    counted d i = do
      raise_if (if is_running i then false else true) test_start
      check_unfinished
      pure (i, new_test test_id now params d)

-- The rest of a creation adds no more than one unfinished test.
start_half-one :
    (m : Machine) (p : Instance × Test) (w : World)
    → unfinished (start_half m p w).1.db.tests ≤ unfinished w.db.tests + 1
unfolding in_session
start_half-one m p w = by_port (deployed "port" p.0)
  where
    ended :
        (q : Result Bool × World)
        → q.1.db ≡ w.db
        → unfinished (end_session (◌>>=◌ (λ _. q) (add_started p.1) w) w.db).1.db.tests
          ≤ unfinished w.db.tests + 1
    ended (ok true, w1) same =
        let one = unfinished-append w1.db.tests (as_running p.1) refl in
        omega (arith, one, ap (λ d. unfinished d.tests) same)
    ended (ok false, w1) same = omega arith
    ended (err e, w1) same = omega arith

    by_port :
        (o : Option Value)
        → unfinished (end_session ((or_crash o >>= start_on m p.0 p.1) w) w.db).1.db.tests
          ≤ unfinished w.db.tests + 1
    by_port none = omega arith
    by_port (some port) =
        ended (start m m.default_enode_host port p.1 p.0 w)
          (start_db m m.default_enode_host port p.1 p.0 w)

-- The unfinished tests, and the creations that may still add one.
abbrev pub pending : Flow → ℕ
pending f = unfinished f.world.db.tests + length f.counted

settles_pending :
    {k : ℕ} (f : Flow) (w' : World)
    → pending f ≤ k
    → Settles f.world w'
    → unfinished w'.db.tests + length f.counted ≤ k
settles_pending f w' few ((le, _), _) = omega arith

kept : {k : ℕ} (f f' : Flow) → pending f ≤ k → Turn k f f' → pending f' ≤ k
kept {k} f f' few (counts r test_id now params p room passed e) =
    let clear = count_half_ok r test_id now params f.world passed in
    subst (λ g. pending g ≤ k) (sym e) (omega (arith, clear, room))
kept {k} f f' few (refuses r test_id now params e) =
    subst (λ g. pending g ≤ k) (sym e)
      (settles_pending f (count_half r test_id now params f.world).1 few
        (count_half-Settles r test_id now params f.world))
kept {k} f f' few (starts m before later p split e) =
    let one = start_half-one m p f.world in
    let all = ap length split ∙ length-append before (p ∷ later) in
    subst (λ g. pending g ≤ k) (sym e) (omega (arith, few, one, all, length-append before later))
kept {k} f f' few (serves w' request e) =
    subst (λ g. pending g ≤ k) (sym e) (settles_pending f w' few (settled f.world w' request))
kept {k} f f' few (collects m t e) =
    subst (λ g. pending g ≤ k) (sym e)
      (settles_pending f (in_session (collect m t) f.world).1 few
        (Preserves-in_session settling (collect m t) (collect-Settles m t) f.world))
kept {k} f f' few (completes m t e) =
    subst (λ g. pending g ≤ k) (sym e)
      (settles_pending f (in_session (merged (update_test_info_when_finish m t)) f.world).1 few (
        Preserves-in_session settling (merged (update_test_info_when_finish m t))
          (finish-Settles m t) f.world))

-- From a state with no unfinished test and no creation under way: if no more than `k` creations of
-- tests are ever between their count and their start at the same time, then the unfinished tests and
-- these creations are together never more than `k`, whatever else is served in between. So at most one
-- test is unfinished where creations do not overlap. The other requests are those of `Serves`, and the
-- ends of a reading of any test that was read before.
pub Run-pending :
    (k : ℕ) (start f : Flow)
    → start.counted ≡ []
    → unfinished start.world.db.tests ≡ 0
    → Run k start f
    → unfinished f.world.db.tests + length f.counted ≤ k
Run-pending k start f idle clear (at_rest _ same) =
    let no_one : length start.counted ≡ 0 = ap length idle in
    subst (λ g. pending g ≤ k) same (omega (arith, no_one, clear))
Run-pending k start f idle clear (next_turn f1 _ ran turn) =
    kept f1 f (Run-pending k start f1 idle clear ran) turn
