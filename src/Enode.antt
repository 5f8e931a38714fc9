-- ===== src/Enode.antt =====
-- enova/enode/hf.py: the pipeline of a model, and the handler of its requests.
use enova.Prelude.{
  ℕ, String, Bool, true, false, ◌&&◌, ◌||◌, not, Option, none, some, if◌then◌else◌, str_eq,
}
use enova.Prelude.Int.{pos}
use enova.Prelude.Text.{codes, has_part}
use enova.Value.{
  Value, null, bool, int, text, list, dict, Items, nil, cons, Fields, end, field, get, get_value,
  set, truthy, is_empty,
}
use enova.Config.{lower}

-- transformers and torch; an object of theirs is a value. `none` is an exception, and that of a pipeline is
-- its text.
pub data Built : Type 0 where
  pipe : Value → Built
  failed : String → Built

pub record Library : Type 0 where
  pub has_cuda : Bool
  -- Whether the configuration of a model names a class of tokenizers.
  pub tokenizer_class : Value → Value → Fields → Option Bool
  -- The tokenizer, and with the flag the model too, both without attention masks.
  pub load_tokenizer : Bool → Value → Value → Fields → Option (Value × Value)
  pub pipeline : String → Value → Fields → Built

-- `CONFIG.TRUST_REMOTE_CODE` and `CONFIG.enova_enode`.
pub record Settings : Type 0 where
  pub trust_remote_code : Value
  pub enova_enode : Fields

abbrev pub no_attention_mask : Value → Bool
no_attention_mask (text m) = str_eq m "microsoft/phi-1" || str_eq m "microsoft/phi-1_5"
no_attention_mask _ = false

abbrev add_trust : Settings → Fields → Fields
add_trust s kwargs =
    if truthy s.trust_remote_code
    then set "trust_remote_code" s.trust_remote_code kwargs
    else kwargs

abbrev add_proxies : Settings → Fields → Fields
add_proxies s kwargs =
    let hf_proxy = get_value "hf_proxy" s.enova_enode in
    if truthy hf_proxy
    then set "proxies" (dict (field "http" hf_proxy (field "https" hf_proxy end))) kwargs
    else kwargs

abbrev dtype_of : Library → String → Value
dtype_of l task =
    if l.has_cuda && not (str_eq task "audio-classification")
    then text "float16"
    else text "float32"

unfoldable pub base_kwargs : Library → Settings → String → Fields
base_kwargs l s task = set "torch_dtype" (dtype_of l task) (add_proxies s (add_trust s end))

abbrev model_kwargs : Fields
model_kwargs = field "low_cpu_mem_usage" (bool true) end

abbrev with_loaded : Bool → Fields → Option (Value × Value) → Fields
with_loaded masks kwargs none = kwargs
with_loaded masks kwargs (some (tokenizer, model)) =
    if masks
    then set "model" model (set "tokenizer" tokenizer kwargs)
    else set "tokenizer" tokenizer kwargs

abbrev with_class : Library → Value → Value → Fields → Option Bool → Option Fields
with_class l model revision kwargs none = none
with_class l model revision kwargs (some is_known) =
    if no_attention_mask model || not is_known
    then some (
        with_loaded (no_attention_mask model) kwargs
          (l.load_tokenizer (no_attention_mask model) model revision kwargs))
    else some kwargs

-- The tokenizer of a text generation, where the configuration has none; an exception is logged.
unfoldable pub tokenizer_kwargs : Library → String → Value → Value → Fields → Option Fields
tokenizer_kwargs l task model revision kwargs =
    if str_eq task "text-generation"
    then with_class l model revision kwargs (l.tokenizer_class model revision kwargs)
    else some kwargs

abbrev add_model_kwargs : Fields → Fields
add_model_kwargs kwargs = elim (get "model" kwargs) [
  | none ↦ set "model_kwargs" (dict model_kwargs) kwargs
  | some v ↦ kwargs
]

abbrev add_device : Library → Fields → Fields
add_device l kwargs = if l.has_cuda then set "device" (int (pos 1)) kwargs else kwargs

abbrev default_model : Value → Fields → Fields
default_model model kwargs = elim (get "model" kwargs) [
  | none ↦ set "model" model kwargs
  | some v ↦ kwargs
]

-- `d.pop(key)`: a missing key is a KeyError.
unfoldable pub pop : String → Fields → Option Fields
pop k end = none
pop k (field j v rest) =
    let others = pop k rest in
    if str_eq j k then some rest else elim others [ none ↦ none | some d ↦ some (field j v d) ]

abbrev and_then : Option Fields → (Fields → Option Fields) → Option Fields
and_then none f = none
and_then (some d) f = f d

abbrev put_or_drop : Fields → Fields → Option Fields
put_or_drop kwargs left =
    if is_empty left
    then pop "model_kwargs" kwargs
    else some (set "model_kwargs" (dict left) kwargs)

-- `kwargs.get("model_kwargs", {}).pop("low_cpu_mem_usage")`, and the dict that is left empty goes.
abbrev without_low_cpu : Fields → Option Fields
without_low_cpu kwargs = elim (get "model_kwargs" kwargs) [
  | some (dict d) ↦ and_then (pop "low_cpu_mem_usage" d) (put_or_drop kwargs)
  | _ ↦ none
]

-- The keywords of the second try, by the text of the first one's exception.
unfoldable pub fallback_kwargs : String → Fields → Option Fields
unfolding pop
fallback_kwargs message kwargs =
    and_then
      (if has_part (codes "low_cpu_mem_usage") (codes (lower message))
        then without_low_cpu kwargs
        else some kwargs)
      (pop "torch_dtype")

abbrev only_pipe : Built → Option Value
only_pipe (pipe v) = some v
only_pipe (failed message) = none

abbrev second_try : Library → String → Value → Option Fields → Option Value
second_try l task revision none = none
second_try l task revision (some kwargs) = only_pipe (l.pipeline task revision kwargs)

abbrev or_fallback : Library → String → Value → Fields → Built → Option Value
or_fallback l task revision kwargs (pipe v) = some v
or_fallback l task revision kwargs (failed message) =
    second_try l task revision (fallback_kwargs message kwargs)

abbrev tried : Library → String → Value → Fields → Option Value
tried l task revision kwargs = or_fallback l task revision kwargs (l.pipeline task revision kwargs)

-- `_create_hf_transformers_pipeline`.
unfoldable pub create_pipeline : Library → Settings → String → Value → Value → Option Value
unfolding base_kwargs tokenizer_kwargs fallback_kwargs
create_pipeline l s task model revision =
    elim (tokenizer_kwargs l task model revision (base_kwargs l s task)) [
      | none ↦ none
      | some kwargs ↦
          tried l task revision (default_model model (add_device l (add_model_kwargs kwargs)))
    ]

abbrev join : Option Value → Option Items → Option Items
join none vs = none
join (some v) none = none
join (some v) (some vs) = some (cons v vs)

unfoldable mutual
  -- `_get_generated_text`; `none` is a ValueError or a KeyError.
  pub get_generated_text : Value → Option Value
  get_generated_text (text s) = some (text s)
  get_generated_text (dict d) = get "generated_text" d
  get_generated_text (list (cons v nil)) = get_generated_text v
  get_generated_text (list vs) = elim (get_all vs) [ none ↦ none | some texts ↦ some (list texts) ]
  get_generated_text _ = none

  pub get_all : Items → Option Items
  get_all nil = some nil
  get_all (cons v rest) = join (get_generated_text v) (get_all rest)

-- What a callback ends with.
pub data Ended : Type 0 where
  answered : Value → Ended
  timed_out : Ended
  http_error : ℕ → Value → Ended
  raised : String → Ended

pub data Reply : Type 0 where
  no_content : Reply
  json : ℕ → Value → Reply

abbrev error : Value → Value
error v = dict (field "error" v end)

-- `handle_request`; the text is that of the timeout.
unfoldable pub handle_request : String → Ended → Reply
handle_request late timed_out = json 504 (error (text late))
handle_request late (http_error status detail) = json status (error detail)
handle_request late (raised message) = json 500 (error (text message))
handle_request late (answered null) = no_content
handle_request late (answered v) = json 200 v
