-- ===== src/App/System/Examples.antt =====
-- A test is started and read, and two creations overlap, from an empty machine.
use enova.Prelude.{refl, ◌≡◌, ◌+◌, ◌≤◌, arith, [], ◌∷◌, String, length}
use enova.App.Store.{World, Instance, Test, Result, ok, err, in_session}
use enova.App.Injection.{status, start, request_of, timer_of, path_of, build_req_body, run}
use enova.App.Instances.{get_instance}
use enova.App.Traffic.{create_test, get_test, unfinished, check_unfinished, new_test}
use enova.App.Traffic.Get.{Docker}
use enova.Value.{text}
use enova.App.Escaler.{sync_enode_status}
use enova.App.Fixtures.{before, ended, replies, test_params, running_row, test_of}
use enova.App.System.{Reach, initially, after, serves, creates_test, gets_test, Moves, view}
use enova.App.System.Refine.{Reach-Moves}
use enova.App.System.Overlap.{
  Flow, Run, at_rest, next_turn, counts, starts, count_half, start_half, overlapped,
}
use enova.App.System.Overlap.Bound.{Run-pending}
use enova.App.System.Overlap.Race.{overlapped-two}

ended_Docker : Docker ended
unfolding status
ended_Docker s h = λ e. cc

abbrev running : World
running = (create_test ended replies "t1" 1000 test_params before).1

abbrev settled : World
settled = (get_test ended "t1" running).1

started : Reach before running
started =
    after before running (initially before refl)
      (creates_test ended replies "t1" 1000 test_params refl)

Reach-Moves_example : Moves (view running) (view settled)
unfolding unfinished
Reach-Moves_example =
    Reach-Moves before running settled refl started
      (serves (gets_test ended "t1" ended_Docker refl))

abbrev idle : Flow
idle = record { world = before; counted = [] }

abbrev drafted : String → Instance × Test
drafted id = (running_row, new_test id 1000 test_params (text "mmlu"))

abbrev one_counted : Flow
one_counted = record {
  world = (count_half replies "t1" 1000 test_params before).1;
  counted = drafted "t1" ∷ [];
}

abbrev two_counted : Flow
two_counted = record {
  world = (count_half replies "t2" 1000 test_params one_counted.world).1;
  counted = drafted "t2" ∷ drafted "t1" ∷ [];
}

abbrev one_started : Flow
one_started = record {
  world = (start_half ended (drafted "t1") two_counted.world).1;
  counted = drafted "t2" ∷ [];
}

abbrev two_started : Flow
two_started = record { world = (start_half ended (drafted "t2") one_started.world).1; counted = [] }

overlapping : Run 2 idle two_started
unfolding get_instance in_session check_unfinished unfinished new_test sync_enode_status start
    request_of timer_of path_of build_req_body run
overlapping =
    next_turn one_started two_started
      (next_turn two_counted one_started
        (next_turn one_counted two_counted
          (next_turn idle one_counted (at_rest idle refl)
            (counts replies "t1" 1000 test_params (drafted "t1") (omega arith) refl refl))
          (counts replies "t2" 1000 test_params (drafted "t2") (omega arith) refl refl))
        (starts ended (drafted "t2" ∷ []) [] (drafted "t1") refl refl))
      (starts ended [] [] (drafted "t2") refl refl)

Run-pending_example : unfinished two_started.world.db.tests + length two_started.counted ≤ 2
unfolding unfinished
Run-pending_example = Run-pending 2 idle two_started refl refl overlapping

abbrev both : Result (Test × Test) × World
both = overlapped ended replies "t1" "t2" 1000 test_params test_params before

abbrev tests_of : Result (Test × Test) × World → Test × Test
tests_of (ok p, w) = p
tests_of (err e, w) = (test_of "t0" "success", test_of "t0" "success")

overlapped-two_example : unfinished both.1.db.tests ≡ 2
unfolding get_instance in_session check_unfinished unfinished new_test sync_enode_status start
    request_of timer_of path_of build_req_body run
overlapped-two_example =
    overlapped-two ended replies "t1" "t2" 1000 test_params test_params before
      {both = tests_of both} {w' = both.1} refl
