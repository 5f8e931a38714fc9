-- ===== src/Api/Restful.antt =====
-- `ASyncRestfulAPI` of enova/api/base.py: a collection and the resources in it.
pub mod Located
use Prim.Native.String.{◌++◌ as str_append}
use enova.Prelude.{String, Bool, true, false, Option, none, some, if◌then◌else◌}
use enova.Value.{Value, null, text, Fields}
use enova.Error.{api_params}
use enova.Constant.{HttpMethod, http_method}
use enova.Api.{Kind, Api, Client, Arguments, Answer, Outcome, call, fail}

-- The class `api_cls` is its kind.
pub record RestfulApi : Type 0 where
  pub kind : Kind
  pub url : String
  pub resource_key : Option String
  pub url_builder : Option (String → Value → Option (String × Value))
  pub remove_url_key : Bool
  pub post_send : Option (Value → Option Value)
  pub header_builder : Option Fields

-- The URL of one resource.
unfoldable pub resource_url : String → String → String
resource_url url key = str_append (str_append (str_append url "/") "{") (str_append key "}")

abbrev pub api_at : RestfulApi → String → String → Api
api_at r method url = record {
  kind = r.kind;
  method = method;
  url = url;
  url_builder = r.url_builder;
  remove_url_key = r.remove_url_key;
  post_send = r.post_send;
  header_builder = r.header_builder;
}

unfoldable pub request : Client → RestfulApi → String → Bool → Value → Arguments → Outcome Answer
unfolding resource_url
request c r method specific_resource trace_id a =
    if specific_resource
    then elim r.resource_key [
      | none ↦
          fail c api_params
            (text "AsyncRestfulEmergingaiAPI: method in [get, update] resource_key cannot be None")
            null
      | some key ↦ call c (api_at r method (resource_url r.url key)) trace_id a
    ]
    else call c (api_at r method r.url) trace_id a

module _ (c : Client) (r : RestfulApi) (trace_id : Value) (a : Arguments) where
  abbrev pub create : Outcome Answer
  create = request c r (http_method.value HttpMethod.post) false trace_id a

  abbrev pub list : Outcome Answer
  list = request c r (http_method.value HttpMethod.get_) false trace_id a

  abbrev pub update : Outcome Answer
  update = request c r (http_method.value HttpMethod.put) true trace_id a

  abbrev pub delete : Outcome Answer
  delete = request c r (http_method.value HttpMethod.delete) true trace_id a

  abbrev pub get : Outcome Answer
  get = request c r (http_method.value HttpMethod.get_) true trace_id a
