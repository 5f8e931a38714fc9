-- ===== src/App/Escaler.antt =====
-- `EScalerActionHandler` of enova/app/service.py. A reply of the escaler or of the enode is an
-- argument; `none` is an exception of the call.
use enova.Prelude.{true, String, Option, none, some, if◌then◌else◌}
use enova.Value.{Value, text, dict, Fields, end, field, get, set, get_value, is_empty, truthy}
use enova.App.Store.{Instance}
use enova.Constant.{DeployStatus, deploy_status}

-- `d.get(k, {})` on a value: only a dict has `get`.
abbrev pub get_dict : String → Value → Option Value
get_dict k (dict d) = elim (get k d) [ none ↦ some (dict end) | some v ↦ some v ]
get_dict k _ = none

abbrev pub get_of : String → Value → Option Value
get_of k (dict d) = some (get_value k d)
get_of k _ = none

-- `v[k]`.
abbrev pub index : String → Value → Option Value
index k (dict d) = get k d
index k _ = none

infixl 5 ◌>>=◌
abbrev pub ◌>>=◌ : {A B : Type 0} → Option A → (A → Option B) → Option B
none >>= f = none
some a >>= f = f a

-- `get_deploy_ret.get("ret", {}).get("result", {}).get("status")`.
abbrev pub reply_status : Value → Option Value
reply_status reply = do
  ret ← get_dict "ret" reply
  result ← get_dict "result" ret
  get_of "status" result

abbrev first_truthy : Value → Value → Value
first_truthy a b = if truthy a then a else b

-- The dict `startup_args`.
abbrev pub startup_args : Fields → Fields → Fields
startup_args task_spec engine_args =
    field "exported_job" (get_value "exporter_service_name" task_spec) (
      field "dtype" (get_value "dtype" engine_args) (
        field "load_format" (get_value "load_format" engine_args) (
          field "max_num_batched_tokens" (get_value "max_num_batched_tokens" task_spec) (
            field "max_num_seqs" (get_value "max_num_seqs" engine_args) (
              field "max_paddings" (get_value "max_paddings" engine_args) (
                field "max_seq_len"
                  (first_truthy (get_value "max_seq_len" engine_args)
                    (get_value "max_model_len" engine_args))
                  (field "model" (get_value "model" engine_args) (
                    field "tokenizer" (get_value "tokenizer" engine_args) (
                      field "pipeline_parallel_size"
                        (get_value "pipeline_parallel_size" engine_args)
                        (field "tensor_parallel_size" (get_value "tensor_parallel_size" engine_args)
                          (field "quantization" (get_value "quantization" engine_args)
                            (field "engine_args" (dict engine_args) end))))))))))))

-- The dict of `instance_info.extra or {}`, and what an assignment into it makes of the instance: a
-- dict with entries is the instance's own, an empty or missing one is new.
abbrev pub extra_of : Instance → Fields
extra_of i = elim i.extra [ none ↦ end | some d ↦ d ]

abbrev pub assign_extra : Fields → Instance → Instance
assign_extra extra i = if is_empty (extra_of i) then i else record i { extra = some extra }

-- What a flush writes of an instance that was `before`: a dict that was changed in place and assigned
-- to the column that holds it is no change to sqlalchemy, which compares it with itself.
abbrev pub flushed : Instance → Instance → Instance
flushed before i = if is_empty (extra_of before) then i else record i { extra = before.extra }

-- The part after the status was found: an exception in it keeps the status that was set.
abbrev with_status : Value → Value → Value → Fields → Instance → Instance
with_status status reply engine_args extra i =
    let found = assign_extra extra (record i { deploy_status = status }) in
    elim (index "ret" reply >>= index "result" >>= index "task_spec") [
      | some (dict task_spec) ↦ elim engine_args [
        | dict args ↦ record i {
          deploy_status = status;
          startup_args = startup_args task_spec args;
          extra = some extra;
        }
        | _ ↦ found
      ]
      | _ ↦ found
    ]

unfoldable pub sync_enode_status : Option Value → Option Value → Instance → Instance
sync_enode_status none engine_args i = i
sync_enode_status (some reply) none i = assign_extra (set "get_deploy_ret" reply (extra_of i)) i
sync_enode_status (some reply) (some engine_args) i =
    let extra = set "get_deploy_ret" reply (extra_of i) in
    elim (reply_status reply) [
      | none ↦ assign_extra extra i
      | some status ↦
          if truthy status then with_status status reply engine_args extra i else record i {
            deploy_status = text (deploy_status.value DeployStatus.unknown);
            extra = some extra;
          }
    ]

-- `none` is the `return None` after an exception.
unfoldable pub shutdown_enode : Option Value → Instance → Option Instance
shutdown_enode none i = none
shutdown_enode (some reply) i = some (record i {
  is_deleted = true;
  deploy_status = text (deploy_status.value DeployStatus.finished);
  extra = some (set "delete_deploay_ret" reply (extra_of i));
})
