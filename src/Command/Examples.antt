-- ===== src/Command/Examples.antt =====
-- The theorems on the commands at concrete arguments.
use enova.Prelude.{
  if◌then◌else◌, ◌==◌, ◌≡◌, refl, arith, ℕ, String, true, false, List, [], ◌∷◌, Option, none, some,
}
use enova.Value.{Value, text, dict, Fields, field, end, update}
use enova.Command.Args.{Eval, parse_extra_args}
use enova.Command.Args.Loop.{read, parse_extra_args-read}
use enova.Command.Args.Print.{print_args, parse_extra_args-print}
use enova.Command.Compose.{Desk}
use enova.Command.Service.{Site}
use enova.Command.Service.Order.{Started, run, recorded, all_starts, run-all_starts}
use enova.Command.Pilot.{App, check_health}
use enova.Command.Pilot.Health.{Checked, check_health-Checked}

abbrev eval : Eval
eval s = none

abbrev given : List String
given = "--model" ∷ "llama" ∷ "--dtype=half" ∷ "stray" ∷ "--flag" ∷ []

parse_extra_args-read_example : parse_extra_args eval given ≡ some (read eval (none, end) given).1
parse_extra_args-read_example = parse_extra_args-read eval given

abbrev show : Value → String
show (text s) = s
show _ = ""

abbrev options : Fields
options = field "model" (text "llama") (field "max-len" (text "a=b") end)

parse_extra_args-print_example :
    parse_extra_args eval (print_args show options) ≡ some (update end options)
parse_extra_args-print_example =
    parse_extra_args-print eval show options (refl, refl, (refl, refl, tt))

abbrev failing : Site
failing = record {
  docker = record { run = λ _ _. record { returncode = 1; stdout = [] }; loads = λ _. none };
  excu = "docker-compose";
  compose_file = "compose.yaml";
  tmp_compose_file = "enova_compose.yaml";
  compose_yaml = field "services" (dict end) end;
  camel_to_snake = λ s. s;
  str = show;
  dumps = λ _. "{}";
  int_of = some;
  is_abs = λ _. false;
  exists_ = λ _. false;
  is_dir = λ _. false;
  abspath = λ s. s;
  makedirs = λ _. true;
  enova_app = end;
  traffic_injector = end;
  serve = λ _ _. none;
}

abbrev plain : Started
plain = record {
  failed_with_stop = false;
  kwars = end;
  serving_host = text "0.0.0.0";
  serving_port = text "9199";
}

abbrev empty : Desk
empty = record { file = end; args = []; ran = [] }

run-all_starts_example :
    run failing plain empty ≡ (some tt, all_starts failing plain (recorded failing plain empty).1)
run-all_starts_example = run-all_starts failing plain empty refl

abbrev up_at_last : ℕ → Option Value
up_at_last n = if n == 2 then some (dict (field "status" (text "running") end)) else none

abbrev app : App
app = record {
  healthz = up_at_last;
  create = λ _. none;
  get_enode = λ _. none;
  list_enodes = λ _. none;
  delete = λ _. none;
}

check_health-Checked_example : Checked up_at_last 0 5 (check_health app 5)
check_health-Checked_example = check_health-Checked app 5 (omega arith)
