-- ===== src/Command/Compose.antt =====
-- `DockerComposeHeler` and `EnumType` of enova/common/cli_helper.py.
use enova.Prelude.{ℕ, String, Bool, List, [], ◌∷◌, ◌++◌, Option, none, some, if◌then◌else◌, ◌==◌}
use enova.Value.{Value, dict, Fields, end, get, set, update, is_empty}

-- What a subprocess gives back.
pub record Ran : Type 0 where
  pub returncode : ℕ
  -- Its output, by lines.
  pub stdout : List String

-- The file `enova_compose.yaml`, the commands that ran, the last one first, and the `docker compose` that
-- answers them; `loads` is `json.loads`.
pub record Desk : Type 0 where
  pub file : Fields
  -- What `ArgumentHelper` recorded in `CONFIG`, the last one first.
  pub args : List Fields
  pub ran : List (List String)

pub record Docker : Type 0 where
  pub run : List String → Desk → Ran
  pub loads : String → Option Value

-- `none` is an exception.
abbrev pub Action : Type 0 → Type 0
Action A = Desk → Option A × Desk

infixl 5 ◌>>=◌ ◌>>◌
abbrev pub ◌>>=◌ : {A B : Type 0} → Action A → (A → Action B) → Action B
◌>>=◌ m f d = let (o, d') = m d in elim o [ none ↦ (none, d') | some a ↦ f a d' ]

abbrev pub ◌>>◌ : {A B : Type 0} → Action A → Action B → Action B
m >> k = m >>= λ _. k

abbrev pub pure : {A : Type 0} → A → Action A
pure a d = (some a, d)

abbrev pub fail : {A : Type 0} → Action A
fail d = (none, d)

abbrev pub or_fail : {A : Type 0} → Option A → Action A
or_fail none = fail
or_fail (some a) = pure a

-- A helper: `excu`, `tmp_compose_file`, and its own copy of the file.
pub record Helper : Type 0 where
  pub excu : String
  pub tmp_compose_file : String
  pub compose_config : Fields

abbrev write_file : Fields → Action (Unit {0})
write_file config d = (some tt, record d { file = config })

-- `__init__`: the file is written as `compose.yaml` is.
unfoldable pub new_helper : String → String → Fields → Action Helper
new_helper excu tmp_compose_file compose_yaml =
    write_file compose_yaml
    >> pure
        (record { excu = excu; tmp_compose_file = tmp_compose_file; compose_config = compose_yaml })

abbrev pub base_cmd : Helper → List String
base_cmd h = h.excu ∷ "-f" ∷ h.tmp_compose_file ∷ []

abbrev run_process : Docker → List String → Action Ran
run_process k command d = (some (k.run command d), record d { ran = command ∷ d.ran })

abbrev checked : Ran → Action Ran
checked r = if r.returncode == 0 then pure r else fail

-- `_run_command`: another return code than 0 is a CalledProcessError.
unfoldable pub run_command : Docker → List String → Action Ran
run_command k command = run_process k command >>= checked

abbrev services_of : Fields → Fields
services_of config = elim (get "services" config) [ some (dict d) ↦ d | _ ↦ end ]

-- `_get_service_config`.
unfoldable pub get_service_config : Helper → String → Fields
get_service_config h service = elim (get service (services_of h.compose_config)) [
  | some (dict d) ↦ d
  | _ ↦ end
]

abbrev put_service : String → Fields → Fields → Fields
put_service service config d = set "services" (dict (set service (dict config) (services_of d))) d

abbrev updated : Helper → String → Fields → Action Helper
updated h service config =
    let whole = put_service service config h.compose_config in
    write_file whole >> pure (record h { compose_config = whole })

-- `update_service_options`: the helper as it leaves it.
unfoldable pub update_service_options : Helper → String → Fields → Action Helper
unfolding get_service_config
update_service_options h service options =
    if is_empty options
    then pure h
    else if is_empty (get_service_config h service)
    then pure h
    else updated h service (update (get_service_config h service) options)

unfoldable pub get_service_option : Helper → String → String → Option Value
unfolding get_service_config
get_service_option h service option_name = get option_name (get_service_config h service)

unfoldable pub loads_all : Docker → List String → Option (List Value)
loads_all k [] = some []
loads_all k (line ∷ rest) =
    let others = loads_all k rest in
    elim (k.loads line) [
      | none ↦ none
      | some v ↦ elim others [ none ↦ none | some vs ↦ some (v ∷ vs) ]
    ]

-- `_extract_state`; the outer `none` is an exception.
abbrev pub first_state : List Value → Option (Option Value)
first_state [] = some none
first_state (dict d ∷ rest) = elim (get "State" d) [ none ↦ none | some v ↦ some (some v) ]
first_state (v ∷ rest) = none

abbrev state_in : Docker → Ran → Action (Option Value)
state_in k r =
    or_fail (elim (loads_all k r.stdout) [ none ↦ none | some infos ↦ first_state infos ])

unfoldable pub get_service_state : Docker → Helper → String → Action (Option Value)
unfolding run_command loads_all
get_service_state k h service =
    run_command k (base_cmd h ++ "ps" ∷ service ∷ "--all" ∷ "--no-trunc" ∷ "--format" ∷ "json" ∷ [])
    >>= state_in k

abbrev daemon_flag : Bool → List String
daemon_flag is_daemon = if is_daemon then "-d" ∷ [] else []

unfoldable pub startup_service : Docker → Helper → String → Bool → Action Ran
unfolding run_command
startup_service k h service is_daemon =
    run_command k (base_cmd h ++ "up" ∷ service ∷ daemon_flag is_daemon)

unfoldable pub stop_service : Docker → Helper → String → Action Ran
unfolding run_command
stop_service k h service = run_command k (base_cmd h ++ "down" ∷ service ∷ [])

unfoldable pub down_service : Docker → Helper → String → Action Ran
unfolding run_command
down_service k h service = run_command k (base_cmd h ++ "down" ∷ service ∷ [])

-- `down_all`: a return code is only logged.
unfoldable pub down_all : Docker → Helper → Action (Unit {0})
down_all k h = run_process k (base_cmd h ++ "down" ∷ []) >>= λ _. pure tt

-- The loop returns in its first turn: the comparison with the service is dropped.
abbrev info_in : Docker → Ran → Action (Option Value)
info_in k r = or_fail (elim (loads_all k r.stdout) [ none ↦ none | some infos ↦ indexed infos ])
  where
    -- `service_info["Service"]` is read, and may be missing.
    indexed : List Value → Option (Option Value)
    indexed [] = some none
    indexed (dict d ∷ rest) = elim (get "Service" d) [ none ↦ none | some v ↦ some (some (dict d)) ]
    indexed (v ∷ rest) = none

unfoldable pub get_svc_info : Docker → Helper → String → Action (Option Value)
unfolding loads_all
get_svc_info k h svc =
    run_process k (base_cmd h ++ "ps" ∷ "--no-trunc" ∷ "--format" ∷ "json" ∷ []) >>= info_in k

-- `EnumType.convert` of a text: `choose` is click's choice among the values, or `none` for its error.
unfoldable pub convert :
    {A : Type 0}
    → (String → Option String)
    → (String → Option A)
    → Option String
    → Option (Option A)
convert choose lookup none = some none
convert choose lookup (some value) = elim (choose value) [
  | none ↦ none
  | some converted ↦ elim (lookup converted) [ none ↦ none | some a ↦ some (some a) ]
]
