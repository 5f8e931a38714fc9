-- ===== src/Command/Jmeter.antt =====
-- `TrafficInjector` of enova/entry/command/injector.py: the configuration of jmeter, and its start.
pub mod Splice
use Prim.Native.Char.{Char, code}
use Prim.Native.String.{◌++◌ as str_append}
use enova.Prelude.{
  ℕ, zero, suc, ◌-◌, String, Bool, true, false, List, [], ◌∷◌, Option, none, some, if◌then◌else◌,
  ◌==◌, str_eq, starts_with,
}
use enova.Prelude.Int.{pos}
use enova.Value.{
  Value, null, text, int, list, dict, Items, nil, cons, Fields, end, field, get, get_value,
}
use enova.Constant.{Distribution, distribution}
use enova.Config.{lower, after}
use enova.Command.Compose.{
  Action, pure, fail, or_fail, Helper, Docker, update_service_options, startup_service,
  down_service, get_service_state, ◌>>=◌, ◌>>◌,
}
use enova.Command.Jmeter.Splice.{split, replace, concat}

-- numpy, the clock, and the files; `none` is an exception. `str` is an f-string's text, and `upper` is
-- `str.upper`.
pub record Rig : Type 1 where
  pub Float : Type 0
  pub normal : Value → Value → Value → Option (List Float)
  pub poisson : Value → Value → Option (List Float)
  -- The text of `max(value, 0)`.
  pub max_zero_text : Float → String
  pub Time : Type 0
  pub datetime2timestamp : Value → Option Time
  pub now : Time
  pub is_before : Time → Time → Bool
  pub minus : Time → Time → Value
  pub str : Value → String
  pub upper : String → String
  pub template : Option String
  -- The first line of a file, stripped.
  pub first_line : String → Option String
  -- Whether the directories can be made, and the configuration written there.
  pub makes_dirs : String → Bool
  pub writes : String → String → Bool
  pub traffic_injector : Fields

abbrev header_config : String → String → String
header_config name value = concat (
    "            \n            <elementProp name=\"\" elementType=\"Header\">            \n              <stringProp name=\"Header.name\">"
    ∷ name ∷ "</stringProp>            \n              <stringProp name=\"Header.value\">" ∷ value
    ∷ "</stringProp>            \n            </elementProp>" ∷ [])

-- `name, value = header.split(":")`, where there is a ":"; more than one is a ValueError.
abbrev one_header : List String → Option String
one_header (name ∷ value ∷ []) = some (header_config name value)
one_header (name ∷ []) = some ""
one_header _ = none

abbrev join : Option String → Option String → Option String
join (some s) (some t) = some (str_append s t)
join _ _ = none

unfoldable pub generate_header_config_str : List String → Option String
generate_header_config_str [] = some ""
generate_header_config_str (header ∷ rest) =
    join (one_header (split 58 header)) (generate_header_config_str rest)

unfoldable pub generate_data_config_str : String → String
generate_data_config_str variable_names = concat (
    "        \n        <CSVDataSet guiclass=\"TestBeanGUI\" testclass=\"CSVDataSet\" testname=\"CSV Data Set Config\">        \n          <stringProp name=\"delimiter\">,</stringProp>        \n          <stringProp name=\"filename\">/opt/data.csv</stringProp>        \n          <boolProp name=\"ignoreFirstLine\">true</boolProp>        \n          <boolProp name=\"quotedData\">true</boolProp>        \n          <boolProp name=\"recycle\">true</boolProp>        \n          <stringProp name=\"shareMode\">shareMode.all</stringProp>        \n          <stringProp name=\"variableNames\">"
    ∷ variable_names ∷ "</stringProp>        \n        </CSVDataSet>        \n        <hashTree/>"
    ∷ [])

abbrev is_kind : String → Value → Bool
is_kind kind (text t) = str_eq t kind
is_kind kind _ = false

abbrev is_normal : Value → Bool
is_normal = is_kind (distribution.value Distribution.normal)

unfoldable pub load_profile : (r : Rig) → List r.Float → String
load_profile r [] = ""
load_profile r (x ∷ rest) =
    str_append
      (concat (
        "            \n          <collectionProp name=\"\">            \n            <stringProp name=\"start\">"
        ∷ r.max_zero_text x
        ∷ "</stringProp>            \n            <stringProp name=\"end\">"
        ∷ r.max_zero_text x
        ∷ "</stringProp>            \n            <stringProp name=\"duration\">1</stringProp>            \n          </collectionProp>"
        ∷ []))
      (load_profile r rest)

abbrev two : {A : Type 0} → (Value → Value → Option A) → Option Value → Option Value → Option A
two f (some v) (some w) = f v w
two f _ _ = none

abbrev one : {A : Type 0} → (Value → Option A) → Option Value → Option A
one f (some v) = f v
one f none = none

unfoldable pub samples : (r : Rig) → Fields → Value → Option (List r.Float)
samples r timer duration =
    one
      (λ kind.
        if is_normal kind
        then two (λ mean std. r.normal mean std duration) (get "mean" timer) (get "std" timer)
        else one (λ lambda_. r.poisson lambda_ duration) (get "lambda" timer))
      (get "type" timer)

unfoldable pub generate_load_profile_str : Rig → Fields → Value → Option String
unfolding samples load_profile
generate_load_profile_str r timer duration = elim (samples r timer duration) [
  | none ↦ none
  | some xs ↦ some (load_profile r xs)
]

-- The arguments of `run`; `data_`, `headers`, `body`, `output` and the times are of `kwargs`.
pub record Injection : Type 0 where
  pub host : String
  pub port : Value
  pub path : String
  pub method : String
  pub duration : Value
  pub timer : Option Fields
  pub container_name : Value
  pub headers : Option String
  pub body : Option String
  pub output : Option String
  pub data_ : Option String
  pub start_time : Value
  pub end_time : Value

abbrev or_default : String → Option String → String
or_default d none = d
or_default d (some s) = s

abbrev get_data_file_path : String → String
get_data_file_path data_ = concat (
    "/opt/enova/enova/template/deployment/docker-compose/traffic-injector/data/"
    ∷ lower data_
    ∷ ".csv"
    ∷ [])

abbrev data_part : Rig → Option String → Option String
data_part r none = some ""
data_part r (some data_) = elim (r.first_line (get_data_file_path data_)) [
  | none ↦ none
  | some line ↦ some (generate_data_config_str line)
]

-- The texts that stand for the marks of the template.
abbrev pub marks : Rig → Injection → Value → String → String → String → List (String × String)
marks r q duration headers profile data_ =
    ("@HOST@", q.host)
    ∷ ("@PORT@", r.str q.port)
    ∷ ("@PATH@", q.path)
    ∷ ("@METHOD@", r.upper q.method)
    ∷ ("@BODY@", or_default "" q.body)
    ∷ ("@DURATION@", r.str duration)
    ∷ ("@ELEMENT_PROP@", headers)
    ∷ ("@LOAD_PROFILE@", profile)
    ∷ ("@DATA@", data_)
    ∷ []

unfoldable pub fill : String → List (String × String) → String
fill s [] = s
fill s ((mark, value) ∷ rest) = fill (replace mark value s) rest

abbrev default_timer : Fields
default_timer =
    field "type" (text (distribution.value Distribution.normal))
      (field "mean" (int (pos 1)) (field "std" (int (pos 1)) end))

abbrev timer_or_default : Option Fields → Fields
timer_or_default none = default_timer
timer_or_default (some timer) = timer

abbrev filled :
    Rig
    → Injection
    → Value
    → Option String
    → Option String
    → Option String
    → Option String
    → Option String
filled r q duration (some s) (some headers) (some profile) (some data_) =
    some (fill s (marks r q duration headers profile data_))
filled r q duration _ _ _ _ = none

-- The text of `jmeter-config.xml`.
unfoldable pub generate_jmeter_config : Rig → Injection → Value → Option String
unfolding generate_header_config_str generate_load_profile_str generate_data_config_str fill
generate_jmeter_config r q duration =
    filled r q duration r.template
      (generate_header_config_str (split 44 (or_default "Accept:*/*" q.headers)))
      (generate_load_profile_str r (timer_or_default q.timer) duration) (data_part r q.data_)

-- What the times of a run come to: a duration, the return at an end before the start, or an exception.
pub data Span : Type 0 where
  lasts : Value → Span
  invalid : Span
  no_date : Span

abbrev not_past : (r : Rig) → r.Time → r.Time
not_past r start = if r.is_before start r.now then r.now else start

abbrev until : (r : Rig) → r.Time → Option r.Time → Span
until r start none = no_date
until r start (some finish) =
    if r.is_before start finish then lasts (r.minus finish start) else invalid

abbrev from_start : (r : Rig) → Injection → Option r.Time → Span
from_start r q none = no_date
from_start r q (some start) = by_end q.end_time
  where
    by_end : Value → Span
    by_end null = lasts q.duration
    by_end v = until r (not_past r start) (r.datetime2timestamp v)

unfoldable pub span_of : Rig → Injection → Span
span_of r q = by_start q.start_time
  where
    by_start : Value → Span
    by_start null = lasts q.duration
    by_start v = from_start r q (r.datetime2timestamp v)

abbrev pub path_join : String → String → String
path_join dir name = str_append dir (str_append "/" name)

abbrev config_text : Rig → String → String
config_text r key = r.str (get_value key r.traffic_injector)

abbrev output_dir : Rig → Injection → String
output_dir r q = path_join (config_text r "cache_dir") (or_default "default" q.output)

abbrev options : Rig → Injection → String → Fields
options r q data_ = field "container_name" q.container_name (
    field "volumes"
      (list (
        cons
          (text (
            concat
              (config_text r "dataset_host_dir" ∷ "/" ∷ lower data_ ∷ ".csv:/opt/data.csv" ∷ [])))
          (cons (text (str_append (output_dir r q) ":/data")) (
            cons (text (concat (config_text r "cache_dir" ∷ ":" ∷ config_text r "cache_dir" ∷ [])))
              nil))))
      end)

abbrev svc_name : String
svc_name = "traffic_injector"

-- `str.lower(data)` is a TypeError without data, when the configuration is written.
abbrev start_with : Rig → Docker → Helper → Injection → Option String → Action (Unit {0})
start_with r k h q none = fail
start_with r k h q (some data_) = update_service_options h svc_name (options r q data_) >>= λ h'.
    startup_service k h' svc_name true >> pure tt

abbrev write_and_start : Rig → Docker → Helper → Injection → Option String → Action (Unit {0})
write_and_start r k h q none = fail
write_and_start r k h q (some config) =
    if r.writes (path_join (output_dir r q) "jmeter-config.xml") config
    then start_with r k h q q.data_
    else fail

abbrev by_span : Rig → Docker → Helper → Injection → Span → Action (Unit {0})
by_span r k h q (lasts duration) = write_and_start r k h q (generate_jmeter_config r q duration)
by_span r k h q invalid = pure tt
by_span r k h q no_date = fail

unfoldable pub run : Rig → Docker → Helper → Injection → Action (Unit {0})
unfolding generate_jmeter_config span_of
run r k h q = if r.makes_dirs (output_dir r q) then by_span r k h q (span_of r q) else fail

unfoldable pub stop : Docker → Helper → Action (Unit {0})
stop k h = down_service k h svc_name >> pure tt

-- The name of the container is not used.
unfoldable pub status : Docker → Helper → Value → Action (Option Value)
status k h container_name = get_service_state k h svc_name
