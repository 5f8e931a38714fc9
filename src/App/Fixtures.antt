-- ===== src/App/Fixtures.antt =====
-- Tables, requests and answers for the examples.
use enova.Prelude.{ℕ, String, true, false, List, [], ◌∷◌, Option, none, some}
use enova.Prelude.Int.{pos}
use enova.Value.{null, int, text, dict, Fields, field, end}
use enova.App.Store.{Instance, Test, Settings, World}
use enova.App.Instances.{CreateParams, Answers, Replies}
use enova.App.Injection.{Machine}
use enova.App.Traffic.{TestParams}

abbrev pub settings : Settings
settings = record {
  serving = field "backend" (text "vllm") (
      field "host" (text "0.0.0.0")
        (field "port" (int (pos 9199)) (field "replica" (int (pos 1)) end)));
  llmo =
      field "eai_exporter_endpoint" (text "otel-collector:4317")
        (field "eai_exporter_service_name" (text "llmo-svc") end);
  backends = field "vllm" (dict (field "vllm_mode" (text "normal") end)) end;
  enova_app = field "model_dir" (text "/workspace/model") end;
  user_args = end;
}

abbrev pub answers : String → Answers
answers id = record {
  params_size = λ _.
      some (field "params_size" (int (pos 6607077376)) (field "model_type" (text "llama") end));
  billions = λ _. 7;
  machine_spec = some (field "gpu" (dict end) end);
  gpu_config = λ spec. some spec;
  create_deploy = λ payload. some (dict payload);
  version = "v1";
  enode_id = id;
  instance_id = id;
  now = 100;
}

abbrev pub params : CreateParams
params = record {
  instance_name = "demo";
  model = text "llama";
  backend_config = null;
  creator = null;
}

abbrev pub finished_row : Instance
finished_row = record {
  instance_id = "i0";
  instance_name = "old";
  instance_spec = end;
  startup_args = end;
  mdl_cfg = field "model_name" (text "llama") end;
  enode_id = "e0";
  deploy_status = text "finsihed";
  extra = none;
  create_time = 1;
  is_deleted = true;
  creator = "unknown";
  updater = "unknown";
}

abbrev pub payload : Fields
payload =
    field "backendConfig" (dict (field "vllm_mode" (text "normal") end))
      (field "port" (int (pos 9199)) end)

abbrev pub running_row : Instance
running_row = record finished_row {
  instance_id = "i1";
  enode_id = "e1";
  deploy_status = text "running";
  is_deleted = false;
  extra = some (field "create_deploy_payload" (dict payload) end);
}

abbrev pub test_of : String → String → Test
test_of id state = record {
  test_id = id;
  instance_id = "i1";
  data_set = text "mmlu";
  param_spec = end;
  test_spec = field "duration" (int (pos 5)) (field "duration_unit" (text "min") end);
  test_status = state;
  prompt_tps = pos 0;
  generation_tps = pos 0;
  result = end;
  creator = "unknown";
  create_time = 1000;
}

abbrev pub world : List Instance → List Test → World
world instances tests = record {
  db = record { instances = instances; tests = tests };
  settings = settings;
  calls = [];
}

abbrev pub replies : Replies
replies = record {
  get_deploy = λ _. none;
  engine_args = none;
  delete_deploy = λ _. some (dict end);
}

-- The container has ended; `names` stands in its report directory, and is read.
abbrev pub machine : Option (List String) → List String → Machine
machine states names = record {
  Float = ℕ;
  float = λ _. some 0;
  is_zero = λ _. true;
  average = λ _. pos 0;
  actual_duration = λ _ _. some 300;
  str = λ _. "1";
  escape = λ s. s;
  write_config = λ _. true;
  compose_up = true;
  compose_down = true;
  compose_ps = states;
  listdir = λ _. names;
  read_csv = λ _. elim names [ [] ↦ none | n ∷ rest ↦ some [] ];
  mean = λ _. int (pos 0);
  query_range = λ _. dict end;
  prom_time_step = text "1m";
  default_enode_host = text "enova-enode";
}

abbrev pub ended : Machine
ended = machine (some ("exited" ∷ [])) ("report.log" ∷ [])

abbrev pub without_report : Machine
without_report = machine (some ("exited" ∷ [])) []

abbrev pub test_params : TestParams
test_params = record {
  instance_id = "i1";
  test_spec = field "data_set" (text "mmlu") (
      field "distribution" (text "poisson") (
        field "tps_mean" (int (pos 4))
          (field "duration" (int (pos 5)) (field "duration_unit" (text "min") end))));
  param_spec =
      field "max_tokens" (int (pos 64))
        (field "temperature" (int (pos 1)) (field "top_p" (int (pos 1)) end));
  creator = null;
}

abbrev pub before : World
before = world (running_row ∷ []) (test_of "t0" "success" ∷ [])
