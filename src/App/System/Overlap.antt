-- ===== src/App/System/Overlap.antt =====
-- `create_test` awaits between the count of the unfinished tests and the insertion of its own
-- (enova/app/service.py): other requests run in between.
pub mod Bound
pub mod Race
use enova.Prelude.{
  ◌≡◌, refl, ap, subst, sym, arith, ℕ, suc, ◌+◌, ◌≤◌, String, List, [], ◌∷◌, ◌++◌, Option, none,
  some, if◌then◌else◌, length, true, false,
}
use enova.Error.{test_start}
use enova.Value.{get}
use enova.App.Store.{
  World, Instance, Test, Action, Result, ok, err, pure, raise_if, or_crash, in_session, ◌>>=◌, ◌>>◌,
}
use enova.App.Injection.{Machine, deployed}
use enova.App.Instances.{Replies, get_instance}
use enova.App.Traffic.{
  TestParams, unfinished, new_test, is_running, check_unfinished, start_on, collect, merged,
}
use enova.App.Report.{update_test_info_when_finish}
use enova.App.System.{Serves}

-- `create_test` up to the await of its count: the instance, and the test that is to be started.
abbrev pub count_half : Replies → String → ℕ → TestParams → Action (Instance × Test)
count_half r test_id now params = do
  data_set ← or_crash (get "data_set" params.test_spec)
  i ← get_instance r params.instance_id
  raise_if (if is_running i then false else true) test_start
  check_unfinished
  pure (i, new_test test_id now params data_set)

-- The rest: the injector is started, and the test added and committed.
abbrev pub start_half : Machine → Instance × Test → Action Test
start_half m p = in_session (do port ← or_crash (deployed "port" p.0); start_on m p.0 p.1 port)

-- The service with its creations that have counted and not yet started.
pub record Flow : Type 0 where
  pub world : World
  pub counted : List (Instance × Test)

-- What happens next, where no more than `k` creations are ever between their count and their start.
pub data Turn (k : ℕ) (f f' : Flow) : Type 1 where
  counts :
      (r : Replies) (test_id : String) (now : ℕ) (params : TestParams) (p : Instance × Test)
      → suc (length f.counted) ≤ k
      → (count_half r test_id now params f.world).0 ≡ ok p
      → f' ≡ record { world = (count_half r test_id now params f.world).1; counted = p ∷ f.counted }
      → Turn k f f'
  -- A request that did not get past its count is over.
  refuses :
      (r : Replies) (test_id : String) (now : ℕ) (params : TestParams)
      → f' ≡ record f { world = (count_half r test_id now params f.world).1 }
      → Turn k f f'
  starts :
      (m : Machine) (before later : List (Instance × Test)) (p : Instance × Test)
      → f.counted ≡ before ++ p ∷ later
      → f' ≡ record { world = (start_half m p f.world).1; counted = before ++ later }
      → Turn k f f'
  serves : (w' : World) → Serves f.world w' → f' ≡ record f { world = w' } → Turn k f f'
  -- The end of `get_test` or `list_test` on a test as it was read at any time before.
  collects :
      (m : Machine) (t : Test)
      → f' ≡ record f { world = (in_session (collect m t) f.world).1 }
      → Turn k f f'
  completes :
      (m : Machine) (t : Test)
      → f' ≡ record f { world = (in_session (merged (update_test_info_when_finish m t)) f.world).1 }
      → Turn k f f'

pub data Run (k : ℕ) (start : Flow) : Flow → Type 1 where
  at_rest : (f : Flow) → start ≡ f → Run k start f
  next_turn : (f1 f : Flow) → Run k start f1 → Turn k f1 f → Run k start f

-- A schedule of two creations: both count before either starts its test.
abbrev pub overlapped :
    Machine → Replies → String → String → ℕ → TestParams → TestParams → Action (Test × Test)
overlapped m r first_id second_id now params others = do
  p ← count_half r first_id now params
  q ← count_half r second_id now others
  t ← start_half m p
  u ← start_half m q
  pure (t, u)
