-- ===== src/App/Instances.antt =====
-- The methods of `AppService` (enova/app/service.py) on instances.
pub mod Rows
pub mod Unique
pub mod Race
pub mod Delete
pub mod Progress
use enova.Prelude.{
  ℕ, String, Bool, true, false, not, ◌&&◌, ◌||◌, List, [], ◌∷◌, ◌++◌, Option, none, some,
  if◌then◌else◌, keep, first, length, leb, ==_iff, ◌==◌, ltb, str_eq,
}
use enova.Prelude.Int.{pos}
use enova.Value.{Value, null, text, int, dict, Fields, end, field, get, set, get_value, truthy}
use enova.Constant.{DeployStatus, deploy_status}
use enova.Error.{instance_exist, instance_not_exist, instance_create_failed}
use enova.Algo.Models.{Model, Default, llm_config, default_7, default_rest}
use enova.App.Store.{
  Instance, Db, World, Action, pure, raise, raise_if, gets, or_crash, in_session, set_instances,
  call, delete_deploy, ◌>>=◌, ◌>>◌,
}
use mathlib.Core.Option.{map}
use enova.App.Escaler.{flushed, sync_enode_status, shutdown_enode}
use enova.App.Payload.{Draft}
use enova.App.Deploy.{deploy_enode}

-- `deploy_status.in_([...])`.
abbrev pub is_active_status : Value → Bool
is_active_status (text s) =
    str_eq s (deploy_status.value DeployStatus.running)
    || str_eq s (deploy_status.value DeployStatus.pending)
    || str_eq s (deploy_status.value DeployStatus.failed)
    || str_eq s (deploy_status.value DeployStatus.unknown)
is_active_status _ = false

abbrev pub is_active : Instance → Bool
is_active i = is_active_status i.deploy_status && not i.is_deleted

unfoldable pub active : List Instance → ℕ
active rows = length (keep is_active rows)

unfoldable pub check_enode_existed : Action (Unit {0})
check_enode_existed =
    in_session (do n ← gets (λ w. active w.db.instances); raise_if (ltb 0 n) instance_exist)

-- The request, after its schema.
pub record CreateParams : Type 0 where
  pub instance_name : String
  pub model : Value
  pub backend_config : Value
  pub creator : Value

-- What the method reads of other libraries, of the machine and of the random generators.
pub record Answers : Type 0 where
  -- `hf_model_params_size`; `none` is an exception.
  pub params_size : Value → Option Fields
  -- `int(round(size / 10**9, ndigits=0))`.
  pub billions : Value → ℕ
  -- `get_machine_spec`, and the `gpu_config` that is read off its result.
  pub machine_spec : Option Fields
  pub gpu_config : Fields → Option Fields
  pub create_deploy : Fields → Option Value
  pub version : String
  pub enode_id : String
  pub instance_id : String
  pub now : ℕ

abbrev model_fields : Model → Fields
model_fields m = field "param_size" (int (pos m.param_size)) (
    field "token_size" (int (pos m.token_size))
      (field "n_head" (int (pos m.n_head)) (field "seq_length" (int (pos m.seq_length)) end)))

abbrev default_fields : Default → Fields
default_fields d =
    field "token_size" (int (pos d.token_size)) (field "seq_length" (int (pos d.seq_length)) end)

-- `LLM_CONFIG.get(name, {}).get(param, {})` and `DEFAULT_CONFIG.get(param, {})`.
abbrev entry : ℕ → List (ℕ × Model) → Fields
entry param [] = end
entry param ((k, m) ∷ rest) = if k == param then model_fields m else entry param rest

abbrev known : Value → ℕ → List (String × List (ℕ × Model)) → Fields
known (text name) param ((j, models) ∷ rest) =
    if str_eq j name then entry param models else known (text name) param rest
known name param rest = end

abbrev default_entry : ℕ → List Default → Fields
default_entry param [] = end
default_entry param (d ∷ rest) =
    if d.param == param then default_fields d else default_entry param rest

abbrev pub or_empty : Value → Value
or_empty v = if truthy v then v else dict end

-- `model_params.get("params_size", 0)`.
abbrev pub size_value : Option Value → Value
size_value none = int (pos 0)
size_value (some v) = v

unfoldable pub model_params : Answers → Value → Value → Fields → Fields
model_params a model backend_config size =
    let param = a.billions (size_value (get "params_size" size)) in
    let d = set "param" (int (pos param)) (set "model_name" model size) in
    set "backend_config" (or_empty backend_config) (
      set "default_config" (dict (default_entry param (default_7 ∷ default_rest)))
        (set "llm_config" (dict (known model param llm_config)) d))

-- `creator or ... or "unknown"`: the schema has no `instance_spec` to fall back to.
abbrev pub creator_or_unknown : Value → String
creator_or_unknown (text s) = if str_eq s "" then "unknown" else s
creator_or_unknown _ = "unknown"

abbrev pub new_row : Answers → Draft → Fields → Instance
new_row a draft extra = record {
  instance_id = a.instance_id;
  instance_name = draft.instance_name;
  instance_spec = draft.instance_spec;
  startup_args = end;
  mdl_cfg = draft.mdl_cfg;
  enode_id = draft.enode_id;
  deploy_status = text (deploy_status.value DeployStatus.unknown);
  extra = some extra;
  create_time = a.now;
  is_deleted = false;
  creator = draft.creator;
  updater = draft.creator;
}

-- The second session of `create_instance`: deploy, and add the row.
abbrev pub add_row : Answers → Draft → Option Fields → Action Instance
add_row a draft none = raise instance_create_failed
add_row a draft (some extra) = do
  rows ← gets (λ w. w.db.instances)
  set_instances (rows ++ new_row a draft extra ∷ [])
  pure (new_row a draft extra)

unfoldable pub deploy_and_add : Answers → Fields → Draft → Action Instance
deploy_and_add a gpu draft =
    in_session (do extra ← deploy_enode a.create_deploy gpu a.version draft; add_row a draft extra)

abbrev pub draft_of : Answers → CreateParams → Value → Fields → Fields → Draft
draft_of a params model size spec = record {
  instance_name = params.instance_name;
  instance_spec = spec;
  mdl_cfg = model_params a model params.backend_config size;
  creator = creator_or_unknown params.creator;
  enode_id = a.enode_id;
}

abbrev pub drafted :
    Answers → CreateParams → Value → Fields → Fields → Fields → Action (Fields × Draft)
drafted a params model size spec gpu = pure (gpu, draft_of a params model size spec)

abbrev pub with_spec : Answers → CreateParams → Value → Fields → Fields → Action (Fields × Draft)
with_spec a params model size spec =
    or_crash (a.gpu_config spec) >>= drafted a params model size spec

abbrev pub with_size : Answers → CreateParams → Value → Fields → Action (Fields × Draft)
with_size a params model size = or_crash a.machine_spec >>= with_spec a params model size

abbrev pub model_of : CreateParams → Fields → Value
model_of params app =
    if truthy (get_value "host_model_dir" app) then get_value "model_dir" app else params.model

-- What stands between the two sessions.
unfoldable pub prepare : Answers → CreateParams → Action (Fields × Draft)
prepare a params = do
  app ← gets (λ w. w.settings.enova_app)
  or_crash (a.params_size (model_of params app)) >>= with_size a params (model_of params app)

unfoldable pub create_instance : Answers → CreateParams → Action Instance
create_instance a params = do
  check_enode_existed
  prepared ← prepare a params
  deploy_and_add a prepared.0 prepared.1

-- `session.merge`: the row with the same primary key is replaced.
abbrev pub merge : Instance → List Instance → List Instance
merge i [] = []
merge i (j ∷ rest) = (if str_eq j.instance_id i.instance_id then i else j) ∷ merge i rest

-- The escaler and the enode, as they answer for an enode.
pub record Replies : Type 0 where
  pub get_deploy : String → Option Value
  pub engine_args : Option Value
  pub delete_deploy : String → Option Value

abbrev pub synced : Replies → Instance → Instance
synced r i = sync_enode_status (r.get_deploy i.enode_id) r.engine_args i

abbrev insert_newest : Instance → List Instance → List Instance
insert_newest i [] = i ∷ []
insert_newest i (j ∷ rest) =
    if leb j.create_time i.create_time then i ∷ j ∷ rest else j ∷ insert_newest i rest

-- `.order_by(create_time.desc())`.
abbrev pub newest_first : List Instance → List Instance
newest_first [] = []
newest_first (i ∷ rest) = insert_newest i (newest_first rest)

unfoldable pub sync_rows : Replies → List Instance → Action (List Instance)
sync_rows r [] = pure []
sync_rows r (i ∷ rest) = do
  rows ← gets (λ w. w.db.instances)
  set_instances (merge (flushed i (synced r i)) rows)
  done ← sync_rows r rest
  pure (synced r i ∷ done)

unfoldable pub list_instance : Replies → Action (List Instance)
unfolding sync_rows
list_instance r = in_session (do
  rows ← gets (λ w. newest_first (keep (λ i. not i.is_deleted) w.db.instances))
  sync_rows r rows)

-- `query_result.first()` of the rows with this id that are not deleted.
abbrev pub find : String → List Instance → Option Instance
find id rows = first (λ i. str_eq i.instance_id id && not i.is_deleted) rows

-- The row that a shutdown leaves to be stored.
abbrev pub shut : Replies → Instance → Option Instance
shut r i = map (flushed i) (shutdown_enode (r.delete_deploy i.enode_id) i)

abbrev shutdown : Replies → Instance → Action (Option Instance)
shutdown r i = do call (delete_deploy i.enode_id); pure (shut r i)

abbrev pub delete_row : Option Instance → Action Bool
delete_row none = pure false
delete_row (some i) = do rows ← gets (λ w. w.db.instances); set_instances (merge i rows); pure true

abbrev pub delete_found : Replies → Option Instance → Action Bool
delete_found r none = raise instance_not_exist
delete_found r (some i) = do gone ← shutdown r i; delete_row gone

-- The answer is "success" (`true`) or "failed".
unfoldable pub delete_instance : Replies → String → Action Bool
delete_instance r id =
    in_session (do found ← gets (λ w. find id w.db.instances); delete_found r found)

unfoldable pub delete_rows : Replies → List Instance → Action (Unit {0})
delete_rows r [] = pure tt
delete_rows r (i ∷ rest) = do
  gone ← shutdown r i
  rows ← gets (λ w. w.db.instances)
  set_instances (elim gone [ none ↦ rows | some i' ↦ merge i' rows ])
  delete_rows r rest

unfoldable pub delete_instance_by_name : Replies → String → Action Bool
unfolding delete_rows
delete_instance_by_name r name = in_session (do
  rows ← gets (λ w. keep (λ i. str_eq i.instance_name name && not i.is_deleted) w.db.instances)
  delete_rows r rows
  pure true)

abbrev pub sync_found : Replies → Option Instance → Action Instance
sync_found r none = raise instance_not_exist
sync_found r (some i) = do
  rows ← gets (λ w. w.db.instances)
  set_instances (merge (flushed i (synced r i)) rows)
  pure (synced r i)

unfoldable pub get_instance : Replies → String → Action Instance
get_instance r id = in_session (do found ← gets (λ w. find id w.db.instances); sync_found r found)
