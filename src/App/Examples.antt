-- ===== src/App/Examples.antt =====
-- The theorems on enova/app/service.py at concrete tables, requests and answers.
use enova.Prelude.{◌≡◌, ◌≢◌, refl, arith, [], ◌∷◌, ◌++◌, none, some}
use enova.Prelude.Int.{pos}
use enova.Value.{Value, int, text, dict, field, end}
use enova.Error.{instance_exist}
use enova.App.Store.{Instance, Test, World, Result, ok, err, raised, crash, in_session}
use enova.App.Escaler.{sync_enode_status}
use enova.App.Payload.{enode_info, form_envs, form_volumes}
use enova.App.Deploy.{deploy_enode, merge_settings, backend_config, override}
use enova.App.Instances.{
  Answers, active, create_instance, check_enode_existed, prepare, deploy_and_add, model_params,
  delete_instance, get_instance,
}
use enova.App.Instances.Unique.{
  create_instance_unique, create_instance-error, create_instance-exist,
}
use enova.App.Instances.Progress.{IsComplete, Answer, create_instance_succeeds}
use enova.App.Instances.Race.{interleaved, interleaved-two}
use enova.App.Instances.Delete.{Deleted, delete_instance-Deleted}
use enova.App.Injection.{
  deployed, run, build_req_body, path_of, path_of, timer_of, request_of, start, status,
}
use enova.App.Traffic.{new_test, check_unfinished, unfinished, create_test, delete_test, get_test}
use enova.App.Traffic.Create.{Quiet, Launched, create_test-Launched}
use enova.App.Traffic.Refuse.{create_test-error, create_test-unfinished}
use enova.App.Traffic.Delete.{Refused, delete_test-Refused}
use enova.App.Traffic.Get.{get_test-lost}
use enova.App.Fixtures.{
  settings, answers, params, finished_row, running_row, test_of, world, replies, ended,
  without_report, test_params, before,
}

delete_instance-Deleted_example :
    Deleted "i1"
      (world (running_row ∷ finished_row ∷ []) [])
      (delete_instance replies "i1" (world (running_row ∷ finished_row ∷ []) []))
delete_instance-Deleted_example =
    delete_instance-Deleted replies "i1" (world (running_row ∷ finished_row ∷ []) [])

create_instance-exist_example :
    create_instance (answers "i2") params (world (running_row ∷ []) [])
    ≡ (err (raised instance_exist), world (running_row ∷ []) [])
unfolding active
create_instance-exist_example =
    create_instance-exist (answers "i2") params (world (running_row ∷ []) []) (omega arith)

delete_test-Refused_example :
    Refused "t1"
      (world [] (test_of "t1" "running" ∷ []))
      (delete_test ended (λ _. none) "t1" (world [] (test_of "t1" "running" ∷ [])))
delete_test-Refused_example =
    delete_test-Refused ended (λ _. none) "t1" (world [] (test_of "t1" "running" ∷ [])) (λ t. refl)

abbrev instance_of : Result Instance × World → Instance
instance_of (ok i, w) = i
instance_of (err e, w) = finished_row

abbrev created : Result Instance × World
created = create_instance (answers "i1") params (world (finished_row ∷ []) [])

create_instance_unique_example :
    (active (finished_row ∷ []) ≡ 0)
    × (created.1.db.instances ≡ (finished_row ∷ []) ++ instance_of created ∷ [])
    × (active created.1.db.instances ≡ 1)
    × (created.1.db.tests ≡ [])
unfolding create_instance check_enode_existed prepare deploy_and_add deploy_enode in_session active
    model_params merge_settings backend_config enode_info form_envs form_volumes override
create_instance_unique_example =
    create_instance_unique (answers "i1") params (world (finished_row ∷ []) [])
      {row = instance_of created} {w' = created.1} refl

abbrev unanswered : Answers
unanswered = record (answers "i1") { create_deploy = λ _. none }

abbrev failed : Result Instance × World
failed = create_instance unanswered params (world (finished_row ∷ []) [])

create_instance-error_example : failed.1.db ≡ record { instances = finished_row ∷ []; tests = [] }
unfolding create_instance check_enode_existed prepare deploy_and_add deploy_enode in_session active
    model_params merge_settings backend_config enode_info form_envs form_volumes override
create_instance-error_example =
    create_instance-error unanswered params (world (finished_row ∷ []) []) {w' = failed.1} refl

abbrev both : Result Instance × World
both = interleaved (answers "i1") params (answers "i2") params (world (finished_row ∷ []) [])

interleaved-two_example : (active (finished_row ∷ []) ≡ 0) × (active both.1.db.instances ≡ 2)
unfolding check_enode_existed prepare deploy_and_add deploy_enode in_session active model_params
    merge_settings backend_config enode_info form_envs form_volumes override
interleaved-two_example =
    interleaved-two (answers "i1") (answers "i2") params params (world (finished_row ∷ []) [])
      {row = instance_of both} {w' = both.1} refl

abbrev test_in : Result Test × World → Test
test_in (ok t, w) = t
test_in (err e, w) = test_of "" ""

abbrev started : Result Test × World
started = create_test ended replies "t1" 1000 test_params before

create_test-Launched_example : Launched before (test_in started) started.1
unfolding create_test get_instance sync_enode_status in_session unfinished check_unfinished new_test
    start request_of timer_of path_of build_req_body run
create_test-Launched_example =
    create_test-Launched ended replies "t1" 1000 test_params before {t = test_in started}
      {w' = started.1} refl

abbrev occupied : World
occupied = world (running_row ∷ []) (test_of "t0" "running" ∷ [])

abbrev refused : Result Test × World
refused = create_test ended replies "t1" 1000 test_params occupied

create_test-error_example : refused.1.db.tests ≡ test_of "t0" "running" ∷ []
unfolding create_test get_instance sync_enode_status in_session unfinished check_unfinished new_test
create_test-error_example =
    create_test-error ended replies "t1" 1000 test_params occupied {w' = refused.1} refl

create_test-unfinished_example : Quiet occupied refused.1 × ((t : Test) → refused.0 ≢ ok t)
unfolding unfinished
create_test-unfinished_example =
    create_test-unfinished ended replies "t1" 1000 test_params occupied (omega arith)

abbrev read : Result Test × World
read = get_test ended "t0" occupied

get_test-lost_example :
    ((get_test without_report "t0" occupied).0 ≡ err crash)
    × ((get_test without_report "t0" occupied).1.db ≡ occupied.db)
unfolding status
get_test-lost_example =
    get_test-lost without_report "t0" occupied {t = test_of "t0" "running"} {state = some "exited"}
      refl refl refl refl refl

answers-Answer : Answer (answers "i1")
answers-Answer = record {
  size = λ _. field "params_size" (int (pos 6607077376)) (field "model_type" (text "llama") end);
  sizes = λ _. refl;
  framework = λ _. text "llama";
  frameworks = λ _. refl;
  spec = field "gpu" (dict end) end;
  machine = refl;
  gpu = field "gpu" (dict end) end;
  gpus = refl;
  reply = λ payload. dict payload;
  replies = λ _. refl;
}

abbrev port : Value
port = int (pos 9199)

settings-IsComplete : IsComplete settings
unfolding backend_config override
settings-IsComplete = record {
  name = "vllm";
  config = field "vllm_mode" (text "normal") end;
  backend = refl;
  host = text "0.0.0.0";
  hosts = refl;
  port = port;
  ports = refl;
  replica = int (pos 1);
  replicas = refl;
  endpoint = text "otel-collector:4317";
  endpoints = refl;
  service_name = text "llmo-svc";
  service_names = refl;
}

create_instance_succeeds_example :
    (row : Instance) × ((create_instance (answers "i1") params (world (finished_row ∷ []) [])).0
      ≡ ok row)
    × (deployed "port" row ≡ some settings-IsComplete.port)
unfolding active
create_instance_succeeds_example =
    create_instance_succeeds (answers "i1") params (world (finished_row ∷ []) []) refl
      settings-IsComplete refl answers-Answer
