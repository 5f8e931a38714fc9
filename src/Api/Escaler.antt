-- ===== src/Api/Escaler.antt =====
-- enova/api/escaler_api.py, and the clients that enova/api/app_api.py, enode_api.py and prom_api.py set
-- up.
use Prim.Native.String.{◌++◌ as str_append}
use enova.Prelude.{String, Bool, false, not, ◌&&◌, Option, none, some, if◌then◌else◌}
use enova.Value.{Value, null, bool, int, dict, Fields, end, field, get, truthy}
use enova.Error.{escaler_api_response}
use enova.Constant.{HttpMethod, http_method}
use enova.Api.{Kind, Api, Client, Arguments, Answer, value, Outcome, ok, raised, crash, call, fail}
use enova.Api.Restful.{RestfulApi}

-- What has a request former, a client and a reformer.
pub data Item : Type 0 where
  get_deploy create_deploy delete_deploy list_detect_history : Item

-- pydantic's models, by their requests: what `Model(**body).dict()` is, or `none` for its exception.
pub record Models : Type 0 where
  pub validate : Item → Fields → Option Fields

abbrev by_task_name : Models → Item → Fields → Option Fields
by_task_name m i params = elim (get "task_name" params) [
  | none ↦ none
  | some name ↦ m.validate i (field "task_name" name end)
]

-- `_EScalerRequestFormer`.
unfoldable pub request_former : Models → Item → Fields → Option Fields
request_former m get_deploy params = by_task_name m get_deploy params
request_former m create_deploy params = m.validate create_deploy params
request_former m delete_deploy params = by_task_name m delete_deploy params
request_former m list_detect_history params = by_task_name m list_detect_history params

-- `code in [0]`.
abbrev equals_zero : Value → Bool
equals_zero (int n) = not (truthy (int n))
equals_zero (bool b) = not b
equals_zero (Value.float s) = not (truthy (Value.float s))
equals_zero _ = false

abbrev pub has_error : Fields → Bool
has_error ret = elim (get "code" ret) [
  | none ↦ false
  | some code ↦ truthy code && not (equals_zero code)
]

-- `_EScalerResponseReformer`: its four methods have one body.
unfoldable pub response_reformer : Client → Item → Value → Outcome Value
response_reformer c i (dict ret) =
    if has_error ret
    then fail c escaler_api_response null null
    else ok (dict (field "ret" (dict ret) end))
response_reformer c i ret = crash

abbrev docker_deploy : String → String
docker_deploy host = str_append host "/api/escaler/v1/docker/deploy"

abbrev client_of : HttpMethod → String → Option (Value → Option Value) → Api
client_of method url post_send = record {
  kind = Kind.plain;
  method = http_method.value method;
  url = url;
  url_builder = none;
  remove_url_key = false;
  post_send = post_send;
  -- `get_request_header` answers an empty dict.
  header_builder = some end;
}

abbrev post_send : Value → Option Value
post_send ret = some ret

-- `_EScalerApi`; the argument is `ESCALER_API_HOST`.
unfoldable pub async_api : String → Item → Api
async_api host get_deploy = client_of HttpMethod.get_ (docker_deploy host) none
async_api host create_deploy = client_of HttpMethod.post (docker_deploy host) (some post_send)
async_api host delete_deploy = client_of HttpMethod.delete (docker_deploy host) none
async_api host list_detect_history =
    client_of HttpMethod.get_ (str_append host "/api/escaler/v1/task/detect/history") none

abbrev pub with_params : Value → Arguments
with_params params = record {
  params = params;
  extras = record { data_ = null; files = null; cookies = null };
  headers = none;
  stream = false;
  return_raw_response = false;
}

abbrev reform : Client → Item → Outcome Answer → Outcome Value
reform c i (ok (value ret)) = response_reformer c i ret
-- A raw response is not asked for.
reform c i (ok _) = crash
reform c i (raised class message code) = raised class message code
reform c i crash = crash

abbrev former_sent : Client → String → Item → Value → Option Fields → Outcome Value
former_sent c host i trace_id none = crash
former_sent c host i trace_id (some body) =
    reform c i (call c (async_api host i) trace_id (with_params (dict body)))

-- The `pipeline` of `EScalerApiWrapper.__getattr__`.
unfoldable pub pipeline : Client → Models → String → Item → Value → Fields → Outcome Value
unfolding request_former async_api response_reformer
pipeline c m host i trace_id params = former_sent c host i trace_id (request_former m i params)

abbrev bare : Kind → HttpMethod → String → Api
bare kind method url = record {
  kind = kind;
  method = http_method.value method;
  url = url;
  url_builder = none;
  remove_url_key = false;
  post_send = none;
  header_builder = none;
}

-- `EnovaAppApi`, `EnodeApi` and `PromApi`, by their hosts.
abbrev pub healthz : String → Api
healthz host = bare Kind.emergingai HttpMethod.get_ (str_append host "/v1/healthz")

abbrev pub enode : String → RestfulApi
enode host = record {
  kind = Kind.emergingai;
  url = str_append host "/v1/enode";
  resource_key = some "instance_id";
  url_builder = none;
  remove_url_key = false;
  post_send = none;
  header_builder = none;
}

abbrev pub delete_enode_by_name : String → Api
delete_enode_by_name host =
    bare Kind.emergingai HttpMethod.delete (str_append host "/v1/enode/name")

abbrev pub engine_args : String → Api
engine_args host = bare Kind.emergingai HttpMethod.get_ (str_append host "/v1/model/info/args")

abbrev pub query_range : String → Api
query_range host = bare Kind.plain HttpMethod.get_ (str_append host "/api/v1/query_range")
