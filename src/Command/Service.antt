-- ===== src/Command/Service.antt =====
-- The services that the pilot starts: enova/entry/command/app.py and mon.py, and `EnodeProxyNginx`,
-- `WebuiProxyNginx` and `EnovaService` of enova/entry/command/pilot.py.
pub mod Order
use Prim.Native.String.{◌++◌ as str_append}
use enova.Prelude.{
  ℕ, String, Bool, true, false, ◌&&◌, List, [], ◌∷◌, ◌++◌, Option, none, some, if◌then◌else◌,
  length, str_eq,
}
use enova.Value.{
  Value, null, text, list, dict, Items, nil, cons, Fields, end, field, get, set, get_value, truthy,
}
use enova.Constant.{DeployMode, deploy_mode}
use enova.Command.Args.{args_map, get_user_args}
use enova.Command.Compose.{
  Desk, Docker, Ran, Action, pure, fail, or_fail, Helper, new_helper, base_cmd,
  update_service_options, get_service_option, startup_service, stop_service, down_service, ◌>>=◌,
  ◌>>◌,
}

-- What surrounds the commands: docker, the file `compose.yaml`, paths, and texts. `str` is an f-string's
-- text, and `int_of` is `int`.
pub record Site : Type 0 where
  pub docker : Docker
  pub excu : String
  pub compose_file : String
  pub tmp_compose_file : String
  pub compose_yaml : Fields
  pub camel_to_snake : String → String
  pub str : Value → String
  pub dumps : Fields → String
  pub int_of : Value → Option Value
  pub is_abs : String → Bool
  pub exists_ : String → Bool
  pub is_dir : String → Bool
  pub abspath : String → String
  pub makedirs : String → Bool
  -- `CONFIG.enova_app` and `CONFIG.traffic_injector`.
  pub enova_app : Fields
  pub traffic_injector : Fields
  -- `uvicorn.run`, or `none` for its exception.
  pub serve : Value → Value → Option (Unit {0})

abbrev pub helper : Site → Action Helper
helper s = new_helper s.excu s.tmp_compose_file s.compose_yaml

-- A helper that was made before, as far as its commands go.
abbrev pub made_helper : Site → Helper
made_helper s = record {
  excu = s.excu;
  tmp_compose_file = s.tmp_compose_file;
  compose_config = s.compose_yaml;
}

-- `ArgumentHelper(self, sys._getframe())` and `CONFIG.update_config(args_helper.args_map)`.
unfoldable pub record_args : Site → String → String → List String → Fields → Action (Unit {0})
unfolding args_map
record_args s class func args f_locals d = (
  some tt,
  record d { args = args_map (length d.args) s.camel_to_snake class func args f_locals ∷ d.args },
)

-- `for service in self.docker_services`, with no options.
unfoldable pub run_by_compose : Site → Helper → List String → Action (Unit {0})
run_by_compose s h [] = pure tt
run_by_compose s h (service ∷ rest) = update_service_options h service end >>= λ h'.
    startup_service s.docker h' service true >> run_by_compose s h' rest

unfoldable pub stop_by_compose : Site → Helper → List String → Action (Unit {0})
stop_by_compose s h [] = pure tt
stop_by_compose s h (service ∷ rest) = down_service s.docker h service >> stop_by_compose s h rest

-- `EnodeProxyNginx` and `WebuiProxyNginx` by their names and services, run by compose.
pub record Proxy : Type 0 where
  pub class : String
  pub docker_services : List String

abbrev pub nginx : Proxy
nginx = record { class = "EnodeProxyNginx"; docker_services = "nginx" ∷ [] }

abbrev pub webui_nginx : Proxy
webui_nginx = record { class = "WebuiProxyNginx"; docker_services = "webui-nginx" ∷ [] }

unfoldable pub proxy_run : Site → Proxy → Helper → Value → Value → Action (Unit {0})
unfolding record_args run_by_compose
proxy_run s p h host port =
    record_args s p.class "run" ("self" ∷ "host" ∷ "port" ∷ [])
      (field "host" host (field "port" port end))
    >> run_by_compose s h p.docker_services

unfoldable pub proxy_stop : Site → Proxy → Helper → Action (Unit {0})
unfolding stop_by_compose
proxy_stop s p h = stop_by_compose s h p.docker_services

-- `EnovaMonitor`.
abbrev pub monitor_services : List String
monitor_services =
    "dcgm-exporter" ∷ "grafana" ∷ "otel-collector" ∷ "prometheus" ∷ "tempo" ∷ "enova-escaler"
    ∷ "enova-algo" ∷ []

unfoldable pub monitor_run : Site → Helper → Action (Unit {0})
unfolding record_args run_by_compose
monitor_run s h =
    record_args s "EnovaMonitor" "run" ("self" ∷ []) end >> run_by_compose s h monitor_services

-- A return code other than 0 is only logged.
unfoldable pub monitor_stop : Site → Helper → Action (Unit {0})
monitor_stop s h d =
    (some tt, record d { ran = (s.excu ∷ "-f" ∷ s.compose_file ∷ "down" ∷ []) ∷ d.ran })

-- `check_local_model_dir`; `none` is a FileNotFoundError.
unfoldable pub check_local_model_dir : Site → String → Option Bool
check_local_model_dir s dir_path =
    if s.is_abs dir_path
    then if s.exists_ dir_path then if s.is_dir dir_path then some true else none else none
    else some (s.exists_ (s.abspath dir_path) && s.is_dir (s.abspath dir_path))

unfoldable pub append : Items → Value → Items
append nil v = cons v nil
append (cons w rest) v = cons w (append rest v)

-- The lists of the environment and of the volumes.
pub record Lists : Type 0 where
  pub environment : Items
  pub volumes : Items

abbrev pub add_hf_proxy : Site → Fields → Lists → Lists
add_hf_proxy s user_args l =
    if truthy (get_value "hf_proxy" user_args)
    then record l {
      environment = append l.environment (
          text
            (str_append "EMERGINGAI_ENOVA_APP_HF_PROXY=" (s.str (get_value "hf_proxy" user_args))));
    }
    else l

abbrev mounted : Site → String → Lists → Lists
mounted s dir l = record l {
  environment = append l.environment (text (str_append "EMERGINGAI_ENOVA_APP_HOST_MODEL_DIR=" dir));
  volumes =
      append l.volumes
        (text (str_append dir (str_append ":" (s.str (get_value "model_dir" s.enova_app)))));
}

abbrev pub add_model_dir : Site → String → Lists → Option Bool → Option Lists
add_model_dir s dir l none = none
add_model_dir s dir l (some true) = some (mounted s (s.abspath dir) l)
add_model_dir s dir l (some false) = some l

-- The model's name is a text; another value has no path.
unfoldable pub add_model : Site → Fields → Lists → Option Lists
unfolding check_local_model_dir append
add_model s user_args l =
    if truthy (get_value "model" user_args)
    then elim (get_value "model" user_args) [
      | text dir ↦ add_model_dir s dir l (check_local_model_dir s dir)
      | _ ↦ none
    ]
    else some l

abbrev add_user_args : Site → Fields → Option Lists → Option Lists
add_user_args s user_args none = none
add_user_args s user_args (some l) = some (record l {
  environment =
      append l.environment
        (text (str_append "EMERGINGAI_ENOVA_APP_USER_ARGS=" (s.dumps user_args)));
})

-- `isinstance(environment_lst, list)`.
abbrev pub with_user_args : Site → Fields → Lists → Option Lists
with_user_args s user_args l =
    add_user_args s user_args (add_model s user_args (add_hf_proxy s user_args l))

abbrev volume : Site → Value → Value → Value
volume s host mount = text (str_append (s.str host) (str_append ":" (s.str mount)))

abbrev made_dirs : Site → Option (Unit {0})
made_dirs s =
    if s.makedirs (s.str (get_value "cache_dir" s.traffic_injector))
      && s.makedirs (s.str (get_value "dataset_host_dir" s.traffic_injector))
    then some tt
    else none

abbrev add_volumes : Site → Items → Items
add_volumes s vs =
    append
      (append vs (
        volume s (get_value "cache_dir" s.traffic_injector)
          (get_value "cache_dir" s.traffic_injector)))
      (volume s (get_value "dataset_dir" s.traffic_injector)
        (get_value "dataset_dir_container" s.enova_app))

abbrev app_name : String
app_name = "enova-app"

-- `get_service_option(...) or []`.
abbrev option_or_empty : Helper → String → Value
option_or_empty h name = elim (get_service_option h app_name name) [
  | none ↦ list nil
  | some v ↦ if truthy v then v else list nil
]

-- What the environment and the volumes become. An environment that is no list stays; volumes that are
-- none cannot be extended.
unfoldable pub app_lists : Site → Fields → Value → Value → Option (Value × Value)
unfolding add_model append
app_lists s user_args (list env) (list vs) =
    elim (with_user_args s user_args (record { environment = env; volumes = vs })) [
      | none ↦ none
      | some l ↦ some (list l.environment, list (add_volumes s l.volumes))
    ]
app_lists s user_args env (list vs) = some (env, list (add_volumes s vs))
app_lists s user_args env vs = none

abbrev command_text : Site → Value → Value → String
command_text s host port =
    str_append "enova app run --host "
      (str_append (s.str host) (str_append " --port " (s.str port)))

abbrev app_options : Site → Value → Value → Value × Value → Fields
app_options s host port (env, vs) =
    field "command" (text (command_text s host port))
      (field "environment" env (field "volumes" vs end))

abbrev start_app : Site → Helper → Value → Value → Value × Value → Action (Unit {0})
start_app s h host port lists =
    or_fail (made_dirs s)
    >> update_service_options h app_name (app_options s host port lists)
    >>= λ h'. startup_service s.docker h' app_name true >> pure tt

abbrev stop_first : Site → Helper → Bool → Action (Unit {0})
stop_first s h restart = if restart then stop_service s.docker h app_name >> pure tt else pure tt

-- `CONFIG.command_args`: the recorded dicts, the first one first, each with the name of its function.
abbrev command_args : Desk → List Fields
command_args d = values d.args
  where
    value_in : Fields → Fields
    value_in (field k (dict v) rest) = set "command_func" (text k) v
    value_in _ = end

    values : List Fields → List Fields
    values [] = []
    values (f ∷ rest) = values rest ++ value_in f ∷ []

abbrev lists_of : Site → Helper → Action (Value × Value)
lists_of s h d =
    or_fail
      (app_lists s (get_user_args (command_args d)) (option_or_empty h "environment")
        (option_or_empty h "volumes"))
      d

-- `EnovaApp._run_compose`.
unfoldable pub app_run_compose : Site → Helper → Value → Value → Bool → Action (Unit {0})
unfolding app_lists
app_run_compose s h host port restart =
    stop_first s h restart >> lists_of s h >>= start_app s h host port

abbrev app_run_by_mode : Site → Helper → String → Value → Value → Bool → Action (Unit {0})
app_run_by_mode s h mode host port restart =
    if str_eq mode (deploy_mode.value DeployMode.local)
    then or_fail (s.serve host port)
    else if str_eq mode (deploy_mode.value DeployMode.compose)
    then app_run_compose s h host port restart
    else fail

-- `EnovaApp.run`, by the mode of deployment.
unfoldable pub app_run : Site → Helper → String → Value → Value → Bool → Action (Unit {0})
unfolding record_args app_run_compose
app_run s h mode host port restart =
    record_args s "EnovaApp" "run" ("self" ∷ "host" ∷ "port" ∷ "restart" ∷ [])
      (field "host" host (field "port" port (field "restart" (Value.bool restart) end)))
    >> app_run_by_mode s h mode host port restart

unfoldable pub app_stop : Site → Helper → String → Action (Unit {0})
app_stop s h mode =
    if str_eq mode (deploy_mode.value DeployMode.local)
    then pure tt
    else if str_eq mode (deploy_mode.value DeployMode.compose)
    then stop_service s.docker h app_name >> pure tt
    else pure tt
