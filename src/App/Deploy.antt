-- ===== src/App/Deploy.antt =====
-- `deploy_enode` of enova/app/service.py.
use Prim.Native.String.{◌++◌ as str_append}
use enova.Prelude.{String, Option, none, some, if◌then◌else◌}
use enova.Value.{Value, text, dict, Fields, end, field, get, set, update, truthy}
use enova.App.Payload.{Draft, Merged, llm_of, enode_info}
use enova.App.Store.{
  Settings, Action, Result, ok, err, raised, crash, pure, fail, gets, call, create_deploy, ◌>>=◌,
  ◌>>◌,
}
use enova.Error.{backend_config_missing}

-- `for k in args.keys(): if prefix + k in user_args: args[k] = user_args[prefix + k]`.
unfoldable pub override : String → Fields → Fields → Fields
override prefix user_args end = end
override prefix user_args (field k v rest) = elim (get (str_append prefix k) user_args) [
  | none ↦ field k v (override prefix user_args rest)
  | some w ↦ field k w (override prefix user_args rest)
]

-- `CONFIG.serving` once its user arguments are in.
abbrev pub served : Settings → Fields
served s = override "serving_" s.user_args s.serving

-- `getattr(CONFIG, backend)`, whose name is `serving_args["backend"]`: a missing name and one that is
-- no text raise, an attribute that `CONFIG` has not is `None`, and what is no dict has no keys.
unfoldable pub backend_config : Option Value → Fields → Result (String × Fields)
backend_config (some (text name)) backends = found (get name backends)
  where
    found : Option Value → Result (String × Fields)
    found none = err (raised backend_config_missing)
    found (some (dict d)) =
        if truthy (dict d) then ok (name, d) else err (raised backend_config_missing)
    found (some v) = err (if truthy v then crash else raised backend_config_missing)
backend_config _ backends = err crash

abbrev with_serving : Settings → Settings
with_serving s = record s { serving = served s }

abbrev with_backend : Settings → String → Fields → Settings
with_backend s name config = record (with_serving s) {
  backends = set name (dict config) s.backends;
}

-- `backendConfig.update(instance_info["mdl_cfg"]["backend_config"])`, and the loop over `CONFIG.llmo`.
abbrev pub merged_with : Settings → Option Value → String → Fields → Result Merged × Settings
merged_with s (some (dict added)) name config =
    let all = update config added in
    (
      ok (record { backend = name; config = all }),
      record (with_backend s name all) { llmo = override "" s.user_args s.llmo },
    )
merged_with s _ name config = (err crash, with_backend s name config)

abbrev pub merged_into : Settings → Fields → Result (String × Fields) → Result Merged × Settings
merged_into s mdl_cfg (err e) = (err e, with_serving s)
merged_into s mdl_cfg (ok (name, config)) =
    merged_with s (get "backend_config" mdl_cfg) name (override "" s.user_args config)

-- The updates of `CONFIG.serving`, of the backend's dict and of `CONFIG.llmo`: the dicts that were
-- changed before an exception stay changed.
unfoldable pub merge_settings : Settings → Fields → Result Merged × Settings
unfolding override backend_config
merge_settings s mdl_cfg =
    merged_into s mdl_cfg (backend_config (get "backend" (served s)) s.backends)

abbrev set_settings : Settings → Action (Unit {0})
set_settings s w = (ok tt, record w { settings = s })

abbrev pub answered : Fields → Option Value → Option Fields
answered payload none = none
answered payload (some ret) =
    some (field "create_deploy_payload" (dict payload) (field "create_deploy_return" ret end))

-- The call, with its payload.
abbrev pub ask : (Fields → Option Value) → Draft → Option Fields → Action (Option Fields)
ask create draft none = fail crash
ask create draft (some payload) =
    call (create_deploy draft.enode_id) >> pure (answered payload (create payload))

abbrev pub deploy_merged :
    (Fields → Option Value)
    → Fields
    → String
    → Draft
    → Fields
    → Result Merged × Settings
    → Action (Option Fields)
deploy_merged create gpu version draft llm (err e, s) = set_settings s >> fail e
deploy_merged create gpu version draft llm (ok m, s) =
    set_settings s >> ask create draft (enode_info s m draft llm gpu version)

abbrev pub deploy_llm :
    (Fields → Option Value) → Fields → String → Draft → Option Fields → Action (Option Fields)
deploy_llm create gpu version draft none = fail crash
deploy_llm create gpu version draft (some llm) = do
  s ← gets (λ w. w.settings)
  deploy_merged create gpu version draft llm (merge_settings s draft.mdl_cfg)

-- The extra of the new instance, or `none` for the `return None` after an exception of the call.
-- `create` answers the escaler's call.
unfoldable pub deploy_enode :
    (Fields → Option Value) → Fields → String → Draft → Action (Option Fields)
unfolding merge_settings enode_info
deploy_enode create gpu version draft = deploy_llm create gpu version draft (llm_of draft.mdl_cfg)
