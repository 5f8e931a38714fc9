-- ===== src/App/Injection.antt =====
-- `TestActionHandler` of enova/app/service.py, and what it uses of `TrafficInjector`
-- (enova/entry/command/injector.py) and of `DockerComposeHeler` (enova/common/cli_helper.py).
use Prim.Native.String.{◌++◌ as str_append}
use enova.Prelude.{
  ℕ, String, Bool, true, false, List, [], ◌∷◌, Option, none, some, if◌then◌else◌, str_eq,
}
use enova.Prelude.Int.{ℤ}
use enova.Value.{Value, text, Fields, end, field, get}
use enova.Constant.{
  VllmMode, vllm_mode, Distribution, distribution, TrafficDistributionType,
  traffic_distribution_type,
}
use enova.Error.{jmeter_container_launch}
use enova.App.Store.{
  Instance, Test, Action, World, Result, ok, err, raised, pure, or_crash, fail, crash, call,
  start_injector, stop_injector, ◌>>=◌, ◌>>◌,
}
use enova.App.Escaler.{index, ◌>>=◌ as and_then}

-- The arguments of `TrafficInjector().run`.
pub record Request : Type 0 where
  pub host : Value
  pub port : Value
  pub path : String
  pub method : String
  pub duration : ℕ
  pub timer : Fields
  -- The argument `data`.
  pub data_set : Value
  pub body : String
  pub headers : String
  pub output : String
  pub container_name : String

pub record Query : Type 0 where
  pub query : String
  pub start : ℕ
  pub finish : ℕ
  pub step : Value

-- A line of a report.
pub record Sample : Type 0 where
  pub success : Bool
  pub elapsed : Value

-- pandas, numpy, the file system, the docker engine and prometheus, as they answer during a request.
pub record Machine : Type 1 where
  pub Float : Type 0
  -- `float(v)`, with its exceptions.
  pub float : Value → Option Float
  pub is_zero : Float → Bool
  -- `int(np.average(values))`.
  pub average : List Float → ℤ
  -- `compute_actual_duration`.
  pub actual_duration : Value → Value → Option ℕ
  -- An f-string's text of a value, and `html.escape`.
  pub str : Value → String
  pub escape : String → String
  -- Whether the injector's directories and its configuration can be written.
  pub write_config : Request → Bool
  -- Whether `docker compose up` and `docker compose down` return 0.
  pub compose_up : Bool
  pub compose_down : Bool
  -- The states that `docker compose ps` prints; `none` is another return code.
  pub compose_ps : Option (List String)
  -- The names in the report directory of a test, and its `report.log` by `read_csv`.
  pub listdir : String → List String
  pub read_csv : String → Option (List Sample)
  pub mean : List Value → Value
  pub query_range : Query → Value
  pub prom_time_step : Value
  pub default_enode_host : Value

-- `TrafficInjector.run`, up to the exceptions that stop it.
unfoldable pub run : Machine → Request → Action (Unit {0})
run m r =
    if m.write_config r
    then call start_injector >> (if m.compose_up then pure tt else fail crash)
    else fail crash

-- `TrafficInjector.stop`.
unfoldable pub stop : Machine → Action (Unit {0})
stop m = call stop_injector >> (if m.compose_down then pure tt else fail crash)

abbrev pub extract_state : List String → Option String
extract_state [] = none
extract_state (s ∷ rest) = some s

-- `TrafficInjector.status`: the outer `none` is an exception.
unfoldable pub status : Machine → Option (Option String)
status m = elim m.compose_ps [ none ↦ none | some states ↦ some (extract_state states) ]

abbrev concat : List String → String
concat [] = ""
concat (s ∷ rest) = str_append s (concat rest)

-- `vllm_mode` of the payload that deployed the instance.
abbrev pub deployed : String → Instance → Option Value
deployed k i = elim i.extra [
  | none ↦ none
  | some extra ↦ and_then (get "create_deploy_payload" extra) (index k)
]

abbrev pub mode_of : Instance → Option Value
mode_of i = and_then (deployed "backendConfig" i) (index "vllm_mode")

abbrev pub is_text : String → Value → Bool
is_text s (text t) = str_eq t s
is_text s _ = false

-- The script between its first lines and its last ones.
abbrev script : Machine → String → Value → Value → Value → String
script m model max_tokens temperature top_p = concat (
    "\n            ${__groovy(\n                def builder = new groovy.json.JsonBuilder();\n                builder {"
    ∷ model
    ∷ "\n                    prompt org.apache.commons.lang.StringEscapeUtils.escapeJavaScript(vars.get('question'))"
    ∷ "\n                    max_tokens "
    ∷ m.str max_tokens
    ∷ "\n                    temperature "
    ∷ m.str temperature
    ∷ "\n                    top_p "
    ∷ m.str top_p
    ∷ "\n                }\n                return builder.toString();\n            )}\n        "
    ∷ [])

abbrev spec_script : Machine → String → Fields → Option String
spec_script m model param_spec = and_then (get "max_tokens" param_spec) (λ max_tokens.
    and_then (get "temperature" param_spec) (λ temperature.
      and_then (get "top_p" param_spec)
        (λ top_p. some (script m model max_tokens temperature top_p))))

unfoldable pub build_openai_req_body : Machine → Fields → Instance → Option String
build_openai_req_body m param_spec i = and_then (get "model_name" i.mdl_cfg) (λ model_name.
    and_then
      (spec_script m (concat ("\n                    model '" ∷ m.str model_name ∷ "'" ∷ []))
        param_spec)
      (λ body. some (m.escape body)))

unfoldable pub build_req_body : Machine → Fields → Instance → Option String
unfolding build_openai_req_body
build_req_body m param_spec i = and_then (mode_of i) (λ mode.
    if is_text (vllm_mode.value VllmMode.openai) mode
    then build_openai_req_body m param_spec i
    else and_then (spec_script m "" param_spec) (λ body. some (m.escape body)))

-- The timer; `none` is an exception, `NotImplementedError` for another distribution.
unfoldable pub timer_of : Fields → Option Fields
timer_of test_spec = and_then (get "distribution" test_spec) (λ d.
    if is_text (traffic_distribution_type.value TrafficDistributionType.gaussian) d
    then and_then (get "tps_mean" test_spec) (λ mean. and_then (get "tps_std" test_spec) (λ std.
      some (
        field "type" (text (distribution.value Distribution.normal))
          (field "mean" mean (field "std" std end)))))
    else if is_text (traffic_distribution_type.value TrafficDistributionType.poisson) d
    then and_then (get "tps_mean" test_spec) (λ mean.
      some
        (field "type" (text (distribution.value Distribution.poisson)) (field "lambda" mean end)))
    else none)

unfoldable pub path_of : Value → Option String
path_of mode =
    if is_text (vllm_mode.value VllmMode.normal) mode
    then some "/generate"
    else if is_text (vllm_mode.value VllmMode.openai) mode
    then some "/v1/completions"
    else none

-- What is handed to the injector.
unfoldable pub request_of : Machine → Value → Value → Test → Instance → Option Request
unfolding timer_of path_of build_req_body
request_of m host port t i = and_then (timer_of t.test_spec) (λ timer. and_then (mode_of i) (λ mode.
    and_then (path_of mode) (λ path. and_then (get "duration" t.test_spec) (λ value.
      and_then (get "duration_unit" t.test_spec) (λ unit.
        and_then (m.actual_duration value unit) (λ duration.
          and_then (get "data_set" t.test_spec) (λ data_set.
            and_then (build_req_body m t.param_spec i) (λ body. some (record {
              host = host;
              port = port;
              path = path;
              method = "post";
              duration = duration;
              timer = timer;
              data_set = data_set;
              body = body;
              headers = "Content-Type:application/json";
              output = t.test_id;
              container_name = str_append "enova-traffic-injector-" t.test_id;
            })))))))))

-- `except JmeterContainerLaunchError: return False`.
abbrev pub launched : Result (Unit {0}) × World → Result Bool × World
launched (ok _, w) = (ok true, w)
launched (err (raised jmeter_container_launch), w) = (ok false, w)
launched (err e, w) = (err e, w)

unfoldable pub start : Machine → Value → Value → Test → Instance → Action Bool
unfolding request_of run
start m host port t i = do r ← or_crash (request_of m host port t i); λ w. launched (run m r w)
