-- ===== src/App/System/Refine.antt =====
-- The service keeps at most one test running, and does what its client may see of it.
use enova.Prelude.{
  ltb→lt, ltb, leb→le, leb, ◌≡◌, refl, ◌∙◌, sym, ap, subst, arith, ℕ, suc, ◌≤◌, String, true, List,
  [], ◌∷◌, ◌++◌, none, some, ◌⊎◌, inl, inr, Bool-cases,
}
use enova.App.Store.{World, Result, ok, err, Test}
use enova.App.Traffic.{is_unfinished, unfinished, TestParams, create_test}
use enova.App.Injection.{Machine}
use enova.App.Instances.{Replies}
use enova.App.Traffic.Create.{Launched, create_test-Launched}
use enova.App.Traffic.Refuse.{create_test-error, create_test-unfinished}
use enova.App.System.{
  Serves, serves, Step, Reach, initially, after, view, Moves, stays, begins, fails, finishes,
  starts, running, creates_instance, lists_instances, gets_instance, deletes_instance,
  deletes_instances, creates_test, lists_tests, gets_test, deletes_test,
}
use enova.App.System.Settle.{Settles}
use enova.App.System.Requests.{list_test-Settles, get_test-Settles, delete_test-Settles}
use enova.App.System.Hosts.{
  create_instance-Settles, list_instance-Settles, get_instance-Settles, delete_instance-Settles,
  delete_instance_by_name-Settles,
}
use enova.App.System.Launch.{Once, create_test-Once}

running_none : (rows : List Test) → unfinished rows ≡ 0 → running rows ≡ none
unfolding unfinished running
running_none [] h = refl
running_none (t ∷ rest) h = ground (arith, running_none rest)

running_some : (rows : List Test) → 1 ≤ unfinished rows → (id : String) × (running rows ≡ some id)
unfolding unfinished running
running_some [] h = let empty : ⊥ = omega (arith, h) in elim empty [ ]
running_some (t ∷ rest) h = elim (Bool-cases (is_unfinished t)) [
  | inl going ↦ (t.test_id, rw (going, running) refl)
  | inr ended ↦ rw (ended, running) (running_some rest (rw (ended, unfinished) at h))
]

running-append :
    (rows : List Test) (t : Test)
    → unfinished rows ≡ 0
    → is_unfinished t ≡ true
    → running (rows ++ t ∷ []) ≡ some t.test_id
unfolding unfinished running
running-append [] t h going = ground arith
running-append (u ∷ rest) t h going = ground (arith, running-append rest t)

-- What a request does to the tests and the launches: it settles, or it launches with none running.
abbrev Starts : World → World → Type 0
Starts w w' =
    (unfinished w.db.tests ≡ 0)
    × (starts w'.calls ≡ suc (starts w.calls))
    × ((w'.db.tests ≡ w.db.tests)
        ⊎ ((t : Test) × (w'.db.tests ≡ w.db.tests ++ t ∷ [])
            × (t.test_status ≡ "running")
            × (unfinished w'.db.tests ≡ 1)))

same_Settles :
    (w w' : World) → w'.db.tests ≡ w.db.tests → starts w'.calls ≡ starts w.calls → Settles w w'
same_Settles w w' tests calls = (
  (
    subst (λ n. n ≤ unfinished w.db.tests) (ap unfinished (sym tests)) (omega arith),
    inl (ap running tests),
  ),
  calls,
)

launches : (w w' : World) (t : Test) → Launched w t w' → Starts w w'
unfolding starts
launches w w' t (clear, rows, one, calls, going) =
    (clear, ap starts calls, inr (t, rows, going, one))

-- Without an answer the tests are the same; with none running, a launch may have been tried.
tried :
    (w w' : World)
    → w'.db.tests ≡ w.db.tests
    → Once w w'
    → unfinished w.db.tests ≡ 0
    → Settles w w' ⊎ Starts w w'
tried w w' tests once clear = elim (Bool-cases (leb (starts w'.calls) (starts w.calls))) [
  | inl same ↦
      inl (same_Settles w w' tests (omega (arith, leb→le (starts w'.calls) (starts w.calls) same)))
  | inr new ↦ inr (clear, grind arith, inl tests)
]

creating :
    (m : Machine) (r : Replies) (test_id : String) (now : ℕ) (params : TestParams) (w : World)
    → Settles w (create_test m r test_id now params w).1
      ⊎ Starts w (create_test m r test_id now params w).1
creating m r test_id now params w = by_result (create_test m r test_id now params w).0 refl
  where
    w' : World
    w' = (create_test m r test_id now params w).1

    by_result :
        (o : Result Test)
        → ◌≡◌ {A = Result Test × World} (create_test m r test_id now params w) (o, w')
        → Settles w w' ⊎ Starts w w'
    by_result (ok t) h = inr (launches w w' t (create_test-Launched m r test_id now params w h))
    by_result (err e) h = elim (Bool-cases (ltb 0 (unfinished w.db.tests))) [
      | inl busy ↦
          let ((tests, calls), _) =
            create_test-unfinished m r test_id now params w
              (ltb→lt 0 (unfinished w.db.tests) busy) in
          inl (same_Settles w w' tests (ap starts calls))
      | inr free ↦
          tried w w' (create_test-error m r test_id now params w h)
            (create_test-Once m r test_id now params w) (grind (arith, free))
    ]

pub settled : (w w' : World) → Serves w w' → Settles w w'
settled w w' (creates_instance a params e) =
    subst (Settles w) e (create_instance-Settles a params w)
settled w w' (lists_instances r e) = subst (Settles w) e (list_instance-Settles r w)
settled w w' (gets_instance r id e) = subst (Settles w) e (get_instance-Settles r id w)
settled w w' (deletes_instance r id e) = subst (Settles w) e (delete_instance-Settles r id w)
settled w w' (deletes_instances r name e) =
    subst (Settles w) e (delete_instance_by_name-Settles r name w)
settled w w' (lists_tests m page e) = subst (Settles w) e (list_test-Settles m page w)
settled w w' (gets_test m id docker e) = subst (Settles w) e (get_test-Settles m id docker w)
settled w w' (deletes_test m delete id refused e) =
    subst (Settles w) e (delete_test-Settles m delete id refused w)

does : (w w' : World) → Step w w' → Settles w w' ⊎ Starts w w'
does w w' (serves request) = inl (settled w w' request)
does w w' (creates_test m r test_id now params e) =
    subst (λ v. Settles w v ⊎ Starts w v) e (creating m r test_id now params w)

kept :
    (w w' : World)
    → unfinished w.db.tests ≤ 1
    → Settles w w' ⊎ Starts w w'
    → unfinished w'.db.tests ≤ 1
kept w w' few (inl ((le, _), _)) = omega arith
kept w w' few (inr (clear, _, inl same)) = subst (λ rows. unfinished rows ≤ 1) (sym same) few
kept w w' few (inr (clear, _, inr (t, _, _, one))) = omega arith

-- If requests are served one after the other and none is unfinished at the start, no more than one test
-- is.
Reach-unfinished :
    (start w : World) → unfinished start.db.tests ≡ 0 → Reach start w → unfinished w.db.tests ≤ 1
Reach-unfinished start _ clear (initially w same) =
    subst (λ v. unfinished v.db.tests ≤ 1) same (omega (arith, clear))
Reach-unfinished start _ clear (after w1 w reached step) =
    kept w1 w (Reach-unfinished start w1 clear reached) (does w1 w step)

moved :
    (w w' : World)
    → unfinished w.db.tests ≤ 1
    → Settles w w' ⊎ Starts w w'
    → Moves (view w) (view w')
moved w w' few (inl ((le, inl same), calls)) = stays cc
moved w w' few (inl ((le, inr lt), calls)) =
    let (id, some_test) = running_some w.db.tests (omega arith) in
    let none_left = running_none w'.db.tests (omega arith) in finishes id some_test cc
moved w w' few (inr (clear, calls, inl same)) =
    let free = running_none w.db.tests clear in fails free cc
moved w w' few (inr (clear, calls, inr (t, rows, going, one))) =
    let free = running_none w.db.tests clear in
    let there = ap running rows ∙ running-append w.db.tests t clear (rw going refl) in
    begins t.test_id free cc

-- When requests are served one after the other, from a state with no unfinished test, each of them is
-- one move of the one place: it leaves the place as it is, or ends the test that runs, or launches
-- when none runs, and then a new test runs or none. So the launches grow by one at most, and never while
-- a test runs.
pub Reach-Moves :
    (start w w' : World)
    → unfinished start.db.tests ≡ 0
    → Reach start w
    → Step w w'
    → Moves (view w) (view w')
Reach-Moves start w w' clear reached step =
    moved w w' (Reach-unfinished start w clear reached) (does w w' step)
