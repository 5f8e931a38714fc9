-- ===== src/App/Payload.antt =====
-- What is sent to the escaler for an instance: `form_envs`, `form_volumes` and the dicts of
-- `deploy_enode` (enova/app/service.py).
use enova.Prelude.{String, Option, some, if◌then◌else◌}
use enova.Value.{Value, text, list, dict, nil, cons, Fields, end, field, get, get_value, truthy}
use enova.App.Store.{Settings}
use enova.App.Escaler.{◌>>=◌}

abbrev env : String → Value → Value
env name value = dict (field "name" (text name) (field "value" value end))

abbrev no_proxy : String
no_proxy =
    "otel-collector,enova-escaler,enova-prometheus,enova-enode,grafana,dcgm-exporter,tempo,enova-app,enova-escaler,enova-algo,localhost,127.0.0.1"

-- The argument is `CONFIG.enova_app`.
unfoldable pub form_envs : Fields → Value
form_envs enova_app =
    let hf_proxy = get_value "hf_proxy" enova_app in
    if truthy hf_proxy
    then list (
        cons (env "http_proxy" hf_proxy)
          (cons (env "https_proxy" hf_proxy) (cons (env "no_proxy" (text no_proxy)) nil)))
    else list nil

abbrev volume : Value → Value → Value
volume host mount = dict (field "hostPath" host (field "mountPath" mount end))

unfoldable pub form_volumes : Fields → Value
form_volumes enova_app =
    let host_model_dir = get_value "host_model_dir" enova_app in
    let cache = volume (text "/root/.cache") (text "/root/.cache") in
    if truthy host_model_dir
    then list (cons cache (cons (volume host_model_dir (get_value "model_dir" enova_app)) nil))
    else list (cons cache nil)

-- The instance that is made, before it is a row.
pub record Draft : Type 0 where
  pub instance_name : String
  pub instance_spec : Fields
  pub mdl_cfg : Fields
  pub creator : String
  pub enode_id : String

-- The backend's name and dict as the function leaves them; the other dicts are in the settings.
pub record Merged : Type 0 where
  pub backend : String
  pub config : Fields

-- The dict `llm_config` of the function.
abbrev pub llm_of : Fields → Option Fields
llm_of mdl_cfg = do
  framework ← get "model_type" mdl_cfg
  param ← get "param" mdl_cfg
  some (field "framework" framework (field "param" param end))

-- The dict `enode_info` with the entries that are looked up.
abbrev pub info_of :
    Settings
    → Merged
    → Draft
    → Fields
    → Fields
    → String
    → Value
    → Value
    → Value
    → Value
    → Value
    → Value
    → Fields
info_of s m draft llm gpu version exporter_endpoint exporter_service_name host model port replica =
    let model_config =
      field "gpu" (dict gpu) (field "llm" (dict llm) (field "version" (text version) end)) in
    field "backend" (text m.backend) (
      field "backendConfig" (dict m.config) (
        field "envs" (form_envs s.enova_app) (
          field "exporter_endpoint" exporter_endpoint (
            field "exporter_service_name" exporter_service_name (
              field "host" host (
                field "model" model (
                  field "modelConfig" (dict model_config) (
                    field "name" (text draft.enode_id) (
                      field "port" port (
                        field "replica" replica
                          (field "volumes" (form_volumes s.enova_app) end)))))))))))

-- The dict, once the settings are merged; `none` is the KeyError of a missing entry. `gpu` is
-- `gpu_config`, which is read off the machine, and `version` the short id.
unfoldable pub enode_info : Settings → Merged → Draft → Fields → Fields → String → Option Fields
unfolding form_envs form_volumes
enode_info s m draft llm gpu version = do
  exporter_endpoint ← get "eai_exporter_endpoint" s.llmo
  exporter_service_name ← get "eai_exporter_service_name" s.llmo
  host ← get "host" s.serving
  model ← get "model_name" draft.mdl_cfg
  port ← get "port" s.serving
  replica ← get "replica" s.serving
  some (
      info_of s m draft llm gpu version exporter_endpoint exporter_service_name host model port
        replica)
