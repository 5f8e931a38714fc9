-- ===== src/App/Traffic.antt =====
-- The methods of `AppService` (enova/app/service.py) on tests.
pub mod Create
pub mod Refuse
pub mod Delete
pub mod Get
use enova.Prelude.{
  ℕ, String, Bool, true, false, ◌||◌, List, [], ◌∷◌, ◌++◌, Option, none, some, if◌then◌else◌,
  str_eq, ltb, length, keep, first,
}
use enova.Prelude.Int.{ℤ, pos}
use enova.Value.{Value, text, Fields, end, get, truthy}
use enova.Constant.{TestStatus, test_status, DeployStatus, deploy_status}
use enova.Error.{test_not_exist, test_start}
use enova.App.Store.{
  Instance, Test, Action, pure, raise, raise_if, fail, crash, gets, or_crash, in_session, set_tests,
  ◌>>=◌, ◌>>◌,
}
use enova.App.Injection.{Machine, deployed, start, stop, status}
use enova.App.Report.{update_test_info_when_finish, update_metrics}
use enova.App.Instances.{Replies, creator_or_unknown, get_instance}

pub record TestParams : Type 0 where
  pub instance_id : String
  pub test_spec : Fields
  pub param_spec : Fields
  pub creator : Value

abbrev pub is_unfinished : Test → Bool
is_unfinished t =
    str_eq t.test_status (test_status.value TestStatus.init)
    || str_eq t.test_status (test_status.value TestStatus.running)
    || str_eq t.test_status (test_status.value TestStatus.unknown)

unfoldable pub unfinished : List Test → ℕ
unfinished rows = length (keep is_unfinished rows)

-- The dict `test_info`; `gen_ulid` and the clock of the table answer `test_id` and `now`.
unfoldable pub new_test : String → ℕ → TestParams → Value → Test
new_test test_id now params data_set = record {
  test_id = test_id;
  instance_id = params.instance_id;
  data_set = data_set;
  param_spec = params.param_spec;
  test_spec = params.test_spec;
  test_status = test_status.value TestStatus.init;
  prompt_tps = pos 0;
  generation_tps = pos 0;
  result = end;
  creator = creator_or_unknown params.creator;
  create_time = now;
}

abbrev pub is_running : Instance → Bool
is_running i = is_text i.deploy_status
  where
    is_text : Value → Bool
    is_text (text s) = str_eq s (deploy_status.value DeployStatus.running)
    is_text _ = false

abbrev pub as_running : Test → Test
as_running t = record t { test_status = test_status.value TestStatus.running }

-- The end of the session of `create_test`, once the injector answered.
abbrev pub add_started : Test → Bool → Action Test
add_started t success = do
  raise_if (if success then false else true) test_start
  rows ← gets (λ w. w.db.tests)
  set_tests (rows ++ as_running t ∷ [])
  pure (as_running t)

abbrev pub start_on : Machine → Instance → Test → Value → Action Test
start_on m i t port = start m m.default_enode_host port t i >>= add_started t

unfoldable pub check_unfinished : Action (Unit {0})
check_unfinished = do c ← gets (λ w. unfinished w.db.tests); raise_if (ltb 0 c) test_start

-- The session of `create_test`.
abbrev pub launch : Machine → Instance → Test → Action Test
launch m i t = do check_unfinished; port ← or_crash (deployed "port" i); start_on m i t port

abbrev pub launch_if_running : Machine → String → ℕ → TestParams → Value → Instance → Action Test
launch_if_running m test_id now params data_set i = do
  raise_if (if is_running i then false else true) test_start
  in_session (launch m i (new_test test_id now params data_set))

unfoldable pub create_test : Machine → Replies → String → ℕ → TestParams → Action Test
create_test m r test_id now params = do
  data_set ← or_crash (get "data_set" params.test_spec)
  i ← get_instance r params.instance_id
  launch_if_running m test_id now params data_set i

abbrev pub find_test : String → List Test → Option Test
find_test id rows = first (λ t. str_eq t.test_id id) rows

-- `session.merge` of a test.
abbrev pub merge_test : Test → List Test → List Test
merge_test t [] = []
merge_test t (u ∷ rest) = (if str_eq u.test_id t.test_id then t else u) ∷ merge_test t rest

-- What `session.delete` is handed: `query_result.first()` is a row of the result, `[0]` of it the
-- mapped object.
pub data Handed : Type 0 where
  row entity : Test → Handed

-- `delete` is sqlalchemy's: what it makes of the rows, or `none` for its exception.
abbrev pub delete_found :
    Machine → (Handed → Option (List Test → List Test)) → Option Test → Action Bool
delete_found m delete none = raise test_not_exist
delete_found m delete (some t) = do
  stop m
  change ← or_crash (delete (row t))
  rows ← gets (λ w. w.db.tests)
  set_tests (change rows)
  pure true

unfoldable pub delete_test :
    Machine → (Handed → Option (List Test → List Test)) → String → Action Bool
delete_test m delete id =
    in_session (do found ← gets (λ w. find_test id w.db.tests); delete_found m delete found)

-- `test_status == "exited" or test_status is None`.
abbrev pub has_ended : Option String → Bool
has_ended none = true
has_ended (some s) = str_eq s "exited"

-- `session.merge` of what an update of a test answers.
abbrev pub merged : Option Test → Action Test
merged none = fail crash
merged (some t) = do rows ← gets (λ w. w.db.tests); set_tests (merge_test t rows); pure t

-- The container is removed and the test gets its result.
abbrev pub collect : Machine → Test → Action Test
collect m t = stop m >> merged (update_test_info_when_finish m t)

abbrev is_zero : ℤ → Bool
is_zero n = if truthy (Value.int n) then false else true

abbrev pub refresh : Machine → Test → Action Test
refresh m t =
    if is_zero t.prompt_tps || is_zero t.generation_tps then merged (update_metrics m t) else pure t

-- The branch of `get_test` for a running test, by the state of the container.
abbrev pub by_state : Machine → Test → Option String → Action Test
by_state m t none = collect m t
by_state m t (some state) =
    if has_ended (some state)
    then collect m t
    else if str_eq state (test_status.value TestStatus.success)
    then refresh m t
    else pure t

abbrev pub sync_running : Machine → Test → Action Test
sync_running m t =
    if str_eq t.test_status (test_status.value TestStatus.running)
    then or_crash (status m) >>= by_state m t
    else pure t

abbrev pub get_found : Machine → Option Test → Action Test
get_found m none = raise test_not_exist
get_found m (some t) = sync_running m t

unfoldable pub get_test : Machine → String → Action Test
get_test m id = in_session (do found ← gets (λ w. find_test id w.db.tests); get_found m found)

-- The loop of `list_test` over the tests of a page.
abbrev pub sync_state : Machine → Test → Option String → Action (Unit {0})
sync_state m t state = if has_ended state then collect m t >> pure tt else pure tt

abbrev pub sync_test : Machine → Test → Action (Unit {0})
sync_test m t =
    if str_eq t.test_status (test_status.value TestStatus.running)
    then or_crash (status m) >>= sync_state m t
    else if str_eq t.test_status (test_status.value TestStatus.success)
    then merged (update_test_info_when_finish m t) >> pure tt
    else pure tt

unfoldable pub sync_tests : Machine → List Test → Action (Unit {0})
sync_tests m [] = pure tt
sync_tests m (t ∷ rest) = sync_test m t >> sync_tests m rest

-- The answer is the page as it was read, before the loop.
unfoldable pub list_test : Machine → (List Test → List Test) → Action (List Test)
unfolding sync_tests
list_test m page = do
  found ← in_session (gets (λ w. page w.db.tests))
  in_session (sync_tests m found)
  pure found
