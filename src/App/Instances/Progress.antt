-- ===== src/App/Instances/Progress.antt =====
-- When a creation of an instance succeeds (enova/app/service.py).
use enova.Prelude.{◌≡◌, refl, ap, ◌∙◌, String, ◌∷◌, Option, some}
use enova.Prelude.Int.{pos}
use enova.Value.{int, Value, Fields, dict, field, end, get}
use enova.Value.Laws.{get-set}
use enova.App.Store.{
  Instance, World, Settings, Result, ok, in_session, end_session, create_deploy, or_crash, ◌>>=◌,
}
use enova.App.Store.Bind.{ok_bind}
use enova.App.Payload.{Draft, Merged, llm_of, info_of, enode_info}
use enova.App.Deploy.{
  override, served, backend_config, merged_into, merged_with, merge_settings, ask, answered,
  deploy_merged, deploy_llm, deploy_enode,
}
use enova.App.Injection.{deployed}
use enova.App.Instances.{
  active, check_enode_existed, CreateParams, size_value, Answers, model_params, or_empty, prepare,
  new_row, add_row, deploy_and_add, create_instance, draft_of, drafted, with_spec, with_size,
  model_of,
}

-- The settings, with the user's arguments, name a backend that has a dict of its own, and hold what is
-- sent to the escaler.
pub record IsComplete (s : Settings) : Type 0 where
  pub name : String
  pub config : Fields
  pub backend : backend_config (get "backend" (served s)) s.backends ≡ ok (name, config)
  pub host : Value
  pub hosts : get "host" (served s) ≡ some host
  pub port : Value
  pub ports : get "port" (served s) ≡ some port
  pub replica : Value
  pub replicas : get "replica" (served s) ≡ some replica
  pub endpoint : Value
  pub endpoints : get "eai_exporter_endpoint" (override "" s.user_args s.llmo) ≡ some endpoint
  pub service_name : Value
  pub service_names :
      get "eai_exporter_service_name" (override "" s.user_args s.llmo) ≡ some service_name

-- The model, the machine and the escaler answer; what is known of a model has its type.
pub record Answer (a : Answers) : Type 0 where
  pub size : Value → Fields
  pub sizes : (v : Value) → a.params_size v ≡ some (size v)
  pub framework : Value → Value
  pub frameworks : (v : Value) → get "model_type" (size v) ≡ some (framework v)
  pub spec : Fields
  pub machine : a.machine_spec ≡ some spec
  pub gpu : Fields
  pub gpus : a.gpu_config spec ≡ some gpu
  pub reply : Fields → Value
  pub replies : (payload : Fields) → a.create_deploy payload ≡ some (reply payload)

check_clear : (w : World) → active w.db.instances ≡ 0 → check_enode_existed w ≡ (ok tt, w)
unfolding check_enode_existed in_session
check_clear w h = rw h

or_crash-some :
    {A : Type 0} → (o : Option A) (w : World) {x : A} → o ≡ some x → or_crash o w ≡ (ok x, w)
or_crash-some o w h = ap (λ o. or_crash o w) h

-- The draft of an instance, from the answers.
abbrev draft_for : (a : Answers) → CreateParams → Settings → Answer a → Draft
draft_for a params s answer =
    let model = model_of params s.enova_app in
    draft_of a params model (answer.size model) answer.spec

prepare_ok :
    (a : Answers) (params : CreateParams) (w : World) (answer : Answer a)
    → prepare a params w ≡ (ok (answer.gpu, draft_for a params w.settings answer), w)
unfolding prepare
prepare_ok a params w answer =
    let model = model_of params w.settings.enova_app in
    ok_bind (with_size a params model) (or_crash (a.params_size model)) w
      (or_crash-some (a.params_size model) w (answer.sizes model))
    ∙ ok_bind (with_spec a params model (answer.size model)) (or_crash a.machine_spec) w
        (or_crash-some a.machine_spec w answer.machine)
    ∙ ok_bind (drafted a params model (answer.size model) answer.spec)
        (or_crash (a.gpu_config answer.spec)) w
        (or_crash-some (a.gpu_config answer.spec) w answer.gpus)

module _ (a : Answers) (model config : Value) (size : Fields) where
  model_params-model_type :
      get "model_type" (model_params a model config size) ≡ get "model_type" size
  unfolding model_params
  model_params-model_type = simp get-set

  model_params-backend_config :
      get "backend_config" (model_params a model config size) ≡ some (or_empty config)
  unfolding model_params
  model_params-backend_config = simp get-set

  model_params-model_name : get "model_name" (model_params a model config size) ≡ some model
  unfolding model_params
  model_params-model_name = simp get-set

  model_params-param :
      get "param" (model_params a model config size)
      ≡ some (int (pos (a.billions (size_value (get "params_size" size)))))
  unfolding model_params
  model_params-param = simp get-set

merged_ok :
    (s : Settings) (mdl_cfg : Fields) {added : Fields} (complete : IsComplete s)
    → get "backend_config" mdl_cfg ≡ some (dict added)
    → merge_settings s mdl_cfg
      ≡ merged_with s (some (dict added)) complete.name (override "" s.user_args complete.config)
unfolding merge_settings
merged_ok s mdl_cfg complete there =
    ap (merged_into s mdl_cfg) complete.backend
    ∙ ap (λ o. merged_with s o complete.name (override "" s.user_args complete.config)) there

llm_ok :
    (mdl_cfg : Fields) {framework param : Value}
    → get "model_type" mdl_cfg ≡ some framework
    → get "param" mdl_cfg ≡ some param
    → llm_of mdl_cfg ≡ some (field "framework" framework (field "param" param end))
llm_ok mdl_cfg a b = rw (a, b) refl

-- The deployment, from its parts.
deploy_ok :
    (create : Fields → Option Value) (gpu : Fields) (version : String) (draft : Draft) (w : World)
    {llm : Fields} {m : Merged} {s : Settings} {payload : Fields} {ret : Value}
    → llm_of draft.mdl_cfg ≡ some llm
    → merge_settings w.settings draft.mdl_cfg ≡ (ok m, s)
    → enode_info s m draft llm gpu version ≡ some payload
    → create payload ≡ some ret
    → deploy_enode create gpu version draft w ≡ (
      ok (answered payload (some ret)),
      record w { settings = s; calls = create_deploy draft.enode_id ∷ w.calls },
    )
unfolding deploy_enode
deploy_ok create gpu version draft w {llm} {m} {s} {payload} a b c d =
    ap (λ o. deploy_llm create gpu version draft o w) a
    ∙ ap (λ r. deploy_merged create gpu version draft llm r w) b
    ∙ ap (λ o. ask create draft o (record w { settings = s })) c
    ∙ ap
        (λ o. (
          ok (answered payload o),
          record w { settings = s; calls = create_deploy draft.enode_id ∷ w.calls },
        ))
        d

info_ok :
    (s : Settings) (m : Merged) (draft : Draft) (llm gpu : Fields) (version : String)
    {endpoint service_name host model port replica : Value}
    → get "eai_exporter_endpoint" s.llmo ≡ some endpoint
    → get "eai_exporter_service_name" s.llmo ≡ some service_name
    → get "host" s.serving ≡ some host
    → get "model_name" draft.mdl_cfg ≡ some model
    → get "port" s.serving ≡ some port
    → get "replica" s.serving ≡ some replica
    → enode_info s m draft llm gpu version
      ≡ some (info_of s m draft llm gpu version endpoint service_name host model port replica)
unfolding enode_info
info_ok s m draft llm gpu version a b c d e f = rw (a, b, c, d, e, f) refl

-- The row of a deployment that answered has the port of the payload.
added_ok :
    (a : Answers) (gpu : Fields) (draft : Draft) (w w1 : World) {payload : Fields}
    {ret port : Value}
    → deploy_enode a.create_deploy gpu a.version draft w ≡ (ok (answered payload (some ret)), w1)
    → get "port" payload ≡ some port
    → (row : Instance) × ((deploy_and_add a gpu draft w).0 ≡ ok row)
      × (deployed "port" row ≡ some port)
unfolding deploy_and_add in_session
added_ok a gpu draft w w1 {payload} {ret} done there =
    let extra =
      field "create_deploy_payload" (dict payload) (field "create_deploy_return" ret end) in
    (
      new_row a draft extra,
      ap
          (λ (p : Result (Option Fields) × World).
            (end_session (◌>>=◌ (λ _. p) (add_row a draft) w) w.db).0)
          done,
      there,
    )

-- If no instance is active, the serving settings are complete, the request's configuration of the
-- backend is a dict or missing, and the model, the machine and the escaler answer, a creation
-- succeeds: with a row that keeps the port of the serving settings as the one deployed.
pub create_instance_succeeds :
    (a : Answers) (params : CreateParams) (w : World) {added : Fields}
    → active w.db.instances ≡ 0
    → (complete : IsComplete w.settings) → or_empty params.backend_config ≡ dict added
    → Answer a
    → (row : Instance) × ((create_instance a params w).0 ≡ ok row)
      × (deployed "port" row ≡ some complete.port)
unfolding create_instance
create_instance_succeeds a params w {added} clear complete given answer =
    let go = λ (p : Fields × Draft). deploy_and_add a p.0 p.1 in
    let model = model_of params w.settings.enova_app in
    let size = answer.size model in
    let d = draft_for a params w.settings answer in
    let llm =
      llm_ok d.mdl_cfg
        (model_params-model_type a model params.backend_config size ∙ answer.frameworks model)
        (model_params-param a model params.backend_config size) in
    let config = model_params-backend_config a model params.backend_config size ∙ ap some given in
    let merged = merged_ok w.settings d.mdl_cfg complete config in
    let named = model_params-model_name a model params.backend_config size in
    let s' =
      (merged_with w.settings (some (dict added)) complete.name
        (override "" w.settings.user_args complete.config)).1 in
    let info =
      info_ok s' _ d _ answer.gpu a.version complete.endpoints complete.service_names complete.hosts
        named complete.ports complete.replicas in
    let deployed_ok =
      deploy_ok a.create_deploy answer.gpu a.version d w llm merged info (answer.replies _) in
    let (row, done, port) = added_ok a answer.gpu d w _ deployed_ok refl in
    let start =
      ok_bind (λ _. prepare a params >>= go) check_enode_existed w (check_clear w clear)
      ∙ ok_bind go (prepare a params) w (prepare_ok a params w answer) in
    (row, ap (λ r. r.0) start ∙ done, port)
