-- ===== src/Instrument.antt =====
-- llmo/enova-instrumentation-llmo/enova/llmo: the middleware of instrumentation/fastapi, the metrics of
-- metrics_adapter/vllm_logging_metrics.py, and the wrappers of instrumentation/vllm.
pub mod Replay
mod Examples
use Prim.Native.String.{◌++◌ as str_append}
use enova.Prelude.{
  ℕ, zero, suc, ◌+◌, ◌-◌, String, Bool, true, false, ◌&&◌, ◌||◌, not, List, [], ◌∷◌, ◌++◌, Option,
  none, some, if◌then◌else◌, str_eq, ltb, map, keep,
}
use enova.Value.{Value, null, text, dict, Fields, end, field, get, set, truthy}

-- A message of ASGI: its body, and whether more of it comes.
pub record Message : Type 0 where
  pub kind : String
  pub body : String
  pub more_body : Bool

-- The loop that reads a body, over the messages as they arrive: what was read, and what has not been
-- received. `none` waits for a message.
abbrev cons_message :
    Message → Option (List Message × List Message) → Option (List Message × List Message)
cons_message m none = none
cons_message m (some (read, rest)) = some (m ∷ read, rest)

unfoldable pub read_body : List Message → Option (List Message × List Message)
read_body [] = none
read_body (m ∷ inbox) =
    let rest = read_body inbox in if m.more_body then cons_message m rest else some (m ∷ [], inbox)

abbrev concat : List String → String
concat [] = ""
concat (s ∷ rest) = str_append s (concat rest)

abbrev bodies : List Message → String
bodies ms = concat (map (λ m. m.body) (keep (λ m. not (str_eq m.body "")) ms))

-- `generate_span.set_attribute(key, str(body_json[key]))`; no body, and what is no dict, sets none.
abbrev attribute : (Value → String) → String → Fields → Fields → Fields
attribute str k d attrs = elim (get k d) [ none ↦ attrs | some v ↦ set k (text (str v)) attrs ]

abbrev of_json : (Value → String) → Option Value → Fields
of_json str (some (dict d)) =
    attribute str "model" d (attribute str "messages" d (attribute str "prompt" d end))
of_json str _ = end

unfoldable pub span_attributes : (String → Option Value) → (Value → String) → List Message → Fields
span_attributes loads str ms =
    let body = bodies ms in if str_eq body "" then end else of_json str (loads body)

pub record Scope : Type 0 where
  pub type_ : String
  pub method : String
  pub path : String

abbrev pub is_generation : Scope → Bool
is_generation s =
    str_eq s.method "POST"
    && (str_eq s.path "/generate"
        || str_eq s.path "/v1/completions"
        || str_eq s.path "/v1/chat/completions")

-- What `__call__` hands to the application: the messages that it has read and those to be received; with
-- it goes whether the request was counted. `none` waits for a message.
abbrev uncounted : List Message → (List Message × List Message) × Bool
uncounted inbox = (([], inbox), false)

abbrev counted : List Message × List Message → (List Message × List Message) × Bool
counted p = (p, true)

unfoldable pub call : Scope → List Message → Option ((List Message × List Message) × Bool)
unfolding read_body
call s inbox =
    if str_eq s.type_ "http"
    then if is_generation s
      then elim (read_body inbox) [ none ↦ none | some p ↦ some (counted p) ]
      else some (counted ([], inbox))
    else some (uncounted inbox)

-- `wrapped_receive`, and what it leaves.
unfoldable pub wrapped_receive :
    List Message × List Message → Option (Message × (List Message × List Message))
wrapped_receive (m ∷ messages, inbox) = some (m, (messages, inbox))
wrapped_receive ([], m ∷ inbox) = some (m, ([], inbox))
wrapped_receive ([], []) = none

-- What the application receives in its first `n` calls.
abbrev next_calls :
    (List Message × List Message → List Message)
    → Option (Message × (List Message × List Message))
    → List Message
next_calls f none = []
next_calls f (some (m, p)) = m ∷ f p

unfoldable pub received : ℕ → List Message × List Message → List Message
unfolding wrapped_receive
received zero p = []
received (suc n) p = next_calls (received n) (wrapped_receive p)

-- The metrics, by their names. The times are seconds; `F` is a float.
pub record Metric (F : Type 0) : Type 0 where
  pub name : String
  pub value : F
  pub last_update : ℕ

abbrev pub timeout_seconds : ℕ
timeout_seconds = 15

unfoldable pub update_metric : {F : Type 0} → String → F → ℕ → List (Metric F) → List (Metric F)
update_metric name value now [] = []
update_metric name value now (m ∷ rest) =
    let others = update_metric name value now rest in
    if str_eq m.name name
    then record { name = m.name; value = value; last_update = now } ∷ others
    else m ∷ others

-- The groups of the pattern, as numbers.
pub record Groups (F : Type 0) : Type 0 where
  pub avg_prompt : F
  pub avg_gen : F
  pub running : F
  pub swapped : F
  pub pending : F
  pub gpu_cache : F
  pub cpu_cache : F

-- `VLLMLogMetricsAdapter.emit`; a message that the pattern does not match is skipped.
unfoldable pub emit : {F : Type 0} → Option (Groups F) → ℕ → List (Metric F) → List (Metric F)
unfolding update_metric
emit none now ms = ms
emit (some g) now ms = update_metric "cpu_kv_cache_usage" g.cpu_cache now (
    update_metric "gpu_kv_cache_usage" g.gpu_cache now (
      update_metric "pending_requests" g.pending now (
        update_metric "swapped_requests" g.swapped now (
          update_metric "running_requests" g.running now (
            update_metric "avg_generation_throughput" g.avg_gen now
              (update_metric "avg_prompt_throughput" g.avg_prompt now ms))))))

-- One turn of `update_metrics_periodically`; `zero_` is 0.0.
unfoldable pub expire : {F : Type 0} → F → ℕ → List (Metric F) → List (Metric F)
expire zero_ now [] = []
expire zero_ now (m ∷ rest) =
    let others = expire zero_ now rest in
    if ltb timeout_seconds (now - m.last_update)
    then record m { value = zero_ } ∷ others
    else m ∷ others

-- An object of vllm, by its attributes.
abbrev attribute_or : String → String → Fields → (Value → String) → Value
attribute_or attr default d str = elim (get attr d) [ none ↦ text default | some v ↦ text (str v) ]

unfoldable pub safe_getattr : Fields → String → Value
safe_getattr d attr = elim (get attr d) [
  | none ↦ text "None"
  | some null ↦ text "None"
  | some v ↦ v
]

abbrev put_str : (Value → String) → Fields → String → Fields → Fields
put_str str d key info = set key (attribute_or key "" d str) info

abbrev put_safe : Fields → String → String → Fields → Fields
put_safe d key attr info = set key (safe_getattr d attr) info

-- What `llmengine_init_wrapper` records of the configurations of an engine that has them.
abbrev of_model : (Value → String) → Fields → Fields → Fields
of_model str d info = put_safe d "seed" "seed" (
    put_safe d "enforce_eager" "enforce_eager" (
      put_str str d "quantization" (
        put_str str d "load_format" (
          put_str str d "download_dir" (
            put_safe d "max_seq_len" "max_model_len" (
              put_str str d "dtype" (
                put_safe d "trust_remote_code" "trust_remote_code" (
                  put_str str d "tokenizer_revision" (
                    put_str str d "revision" (
                      put_str str d "tokenizer_mode"
                        (put_str str d "tokenizer" (put_str str d "model" info))))))))))))

abbrev of_scheduler : Fields → Fields → Fields
of_scheduler d info = put_safe d "max_paddings" "max_paddings" (
    put_safe d "max_num_seqs" "max_num_seqs"
      (put_safe d "max_num_batched_tokens" "max_num_batched_tokens" info))

abbrev of_cache : (Value → String) → Fields → Fields → Fields
of_cache str d info = put_str str d "kv_cache_dtype" info

abbrev of_parallel : Fields → Fields → Fields
of_parallel d info = put_safe d "max_parallel_loading_workers" "max_parallel_loading_workers" (
    put_safe d "worker_use_ray" "worker_use_ray" (
      put_safe d "disable_custom_all_reduce" "disable_custom_all_reduce" (
        put_safe d "pipeline_parallel_size" "pipeline_parallel_size"
          (put_safe d "tensor_parallel_size" "tensor_parallel_size" info))))

pub record Engine : Type 0 where
  pub model_config : Option Fields
  pub scheduler_config : Option Fields
  pub cache_config : Option Fields
  pub parallel_config : Option Fields

abbrev with_config : (Fields → Fields → Fields) → Option Fields → Fields → Fields
with_config f none info = info
with_config f (some d) info = f d info

unfoldable pub engine_init_info : (Value → String) → Engine → Fields → Fields
unfolding safe_getattr
engine_init_info str e info = with_config of_parallel e.parallel_config (
    with_config (of_cache str) e.cache_config (
      with_config of_scheduler e.scheduler_config (with_config (of_model str) e.model_config info)))

-- `llmengine_init_wrapper`: nothing is recorded where the instrumentation is suppressed.
abbrev pub llmengine_init : (Value → String) → Bool → Engine → Fields → Fields
llmengine_init str is_suppressed e info =
    if is_suppressed then info else engine_init_info str e info

-- What `forward_wrapper` adds to the counter, of the shape of `input_ids`.
unfoldable pub tokens_generated : Option (List ℕ) → ℕ
tokens_generated none = 1
tokens_generated (some (batch ∷ length_ ∷ rest)) = batch
tokens_generated (some shape) = 1

abbrev labels_of : Option Value → Option Fields
labels_of none = some end
labels_of (some (dict d)) = some d
labels_of (some v) = none

-- `statlogger_init_wrapper`: the keywords that are handed on.
unfoldable pub statlogger_kwargs : String → Fields → Option Fields
statlogger_kwargs service_name kwargs = elim (labels_of (get "labels" kwargs)) [
  | none ↦ none
  | some d ↦ some (set "labels" (dict (set "exported_job" (text service_name) d)) kwargs)
]
