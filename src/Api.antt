-- ===== src/Api.antt =====
-- enova/api/base.py: the HTTP clients of the services. `before_send`, which nothing sets, is left out.
pub mod Template
pub mod Restful
pub mod Escaler
pub mod Envelope
mod Examples
use Prim.Native.String.{◌++◌ as str_append}
use enova.Prelude.{
  ℕ, zero, suc, ◌-◌, String, Bool, true, false, ◌||◌, List, [], ◌∷◌, Option, none, some,
  if◌then◌else◌, str_eq, every, leb, ◌&&◌, get_elem?,
}
use enova.Prelude.Text.{codes}
use enova.Value.{Value, null, bool, int, float, text, dict, Fields, end, field, get, update, truthy}
use enova.Config.{lower}
use enova.Error.{
  Error, ErrorClass, ErrorConfig, api_response, api_params, error_code, error_message, or_else,
}
use enova.Server.Middleware.{Response, contains, is_json}
use enova.Constant.{HttpMethod, http_method, methods_with_body}
use enova.Api.Template.{Printer, default_url_builder}

-- What a call raises: a declared error, or any other exception.
pub data Outcome {ℓ} (A : Type ℓ) : Type ℓ where
  ok : A → Outcome A
  raised : ErrorClass → Value → ℕ → Outcome A
  crash : Outcome A

pub record Extras : Type 0 where
  pub data_ : Value
  pub files : Value
  pub cookies : Value

-- What is handed to httpx.
pub record Sent : Type 0 where
  pub method : String
  pub url : String
  pub params : Value
  pub json : Value
  pub headers : Fields
  pub extras : Extras

-- `_process_repsonse` is that of the class.
pub data Kind : Type 0 where
  plain emergingai : Kind

-- `ASyncAPI` and its subclass. The builder of the headers is what it returns.
pub record Api : Type 0 where
  pub kind : Kind
  pub method : String
  pub url : String
  pub url_builder : Option (String → Value → Option (String × Value))
  pub remove_url_key : Bool
  pub post_send : Option (Value → Option Value)
  pub header_builder : Option Fields

-- The arguments of a call.
pub record Arguments : Type 0 where
  pub params : Value
  pub extras : Extras
  pub headers : Option Fields
  pub stream : Bool
  pub return_raw_response : Bool

-- What the process has around a call: the texts of values, the configuration of the errors, and httpx.
-- `int` is Python's, on a text.
pub record Client : Type 0 where
  pub printer : Printer
  pub int_of : String → Option ℕ
  pub errors : ErrorConfig
  pub request : Sent → Option Response

pub data Answer : Type 0 where
  raw : Response → Answer
  value : Value → Answer

-- `self.method.lower() in ["post", "put"]`.
abbrev pub has_body : String → Bool
has_body method =
    str_eq (lower method) (http_method.value HttpMethod.post)
    || str_eq (lower method) (http_method.value HttpMethod.put)

abbrev or_end : Option Fields → Fields
or_end none = end
or_end (some d) = d

unfoldable pub actual_headers : Value → Option Fields → Option Fields → Fields
actual_headers trace_id built given =
    update (update (field "trace_id" trace_id end) (or_end built)) (or_end given)

abbrev pub built_url : Client → Api → Value → Option (String × Value)
built_url c api v = elim api.url_builder [
  | none ↦ default_url_builder c.printer api.remove_url_key api.url v
  | some build ↦ build api.url v
]

-- The builder of the URL may take keys out of the dict that is sent.
abbrev sent_with : Api → Value → Arguments → Value → Value → String → Sent
sent_with api trace_id a params json url = record {
  method = api.method;
  url = url;
  params = params;
  json = json;
  headers = actual_headers trace_id api.header_builder a.headers;
  extras = a.extras;
}

-- The request that a call makes; `none` is an exception of the URL's builder.
unfoldable pub request_of : Client → Api → Value → Arguments → Option Sent
unfolding actual_headers default_url_builder
request_of c api trace_id a =
    if has_body api.method
    then elim (built_url c api a.params) [
      | none ↦ none
      | some (url, params) ↦ some (sent_with api trace_id a null params url)
    ]
    else elim (built_url c api (if truthy a.params then a.params else null)) [
      | none ↦ none
      | some (url, params) ↦
          some (sent_with api trace_id a (if truthy a.params then params else a.params) null url)
    ]

abbrev or_message : ErrorClass → Value → Value
or_message class null = text (error_message class)
or_message class v = v

abbrev own_code : Printer → ErrorClass → Value → String
own_code p class null = error_code class
own_code p class v = p.str v

-- An error with a message and a code; what is None is the class's. Its `int` may raise.
unfoldable pub fail {ℓ} : {A : Type ℓ} → Client → ErrorClass → Value → Value → Outcome A
fail c class message code =
    let prefix =
      str_append (or_else c.errors.basic_error_code "100") (or_else c.errors.module_code "001") in
    elim (c.int_of (str_append prefix (own_code c.printer class code))) [
      | none ↦ crash
      | some n ↦ raised class (or_message class message) n
    ]

abbrev index : String → Value → Option Value
index k (dict d) = get k d
index k _ = none

abbrev or_crash : Option Value → Outcome Value
or_crash none = crash
or_crash (some v) = ok v

-- `code == "0" or code == 0`.
abbrev pub is_success : Value → Bool
is_success (text s) = str_eq s "0"
is_success (int n) = if truthy (int n) then false else true
is_success (bool b) = if b then false else true
is_success (float s) = if truthy (float s) then false else true
is_success _ = false

abbrev raise_response : Client → Value → Value → Option Value → Outcome Value
raise_response c resp code none = crash
raise_response c resp code (some message) = fail c api_response message code

abbrev by_code : Client → Value → Option Value → Outcome Value
by_code c resp none = crash
by_code c resp (some code) =
    if is_success code
    then or_crash (index "result" resp)
    else raise_response c resp code (index "message" resp)

abbrev process_json : Client → Option Value → Outcome Value
process_json c none = crash
process_json c (some resp) = elim (contains "code" resp) [
  | none ↦ crash
  | some false ↦ fail c api_response (text "passthrough api is not enova api") null
  | some true ↦ by_code c resp (index "code" resp)
]

-- `_process_repsonse` of `ASyncEmergingaiAPI`.
unfoldable pub process_emergingai : Client → Response → Outcome Value
unfolding fail contains
process_emergingai c r =
    if is_json (get "content-type" r.headers)
    then process_json c r.body
    else fail c api_response (text "only support json respsonse") null

-- `_process_repsonse` of `ASyncAPI`.
unfoldable pub process_plain : Option (Value → Option Value) → Response → Outcome Value
process_plain post_send r = elim r.body [
  | none ↦ crash
  | some ret ↦ or_crash (elim post_send [ none ↦ some ret | some f ↦ f ret ])
]

abbrev pub process : Client → Api → Response → Outcome Value
process c api r = elim api.kind [
  | plain ↦ process_plain api.post_send r
  | emergingai ↦ process_emergingai c r
]

abbrev as_value : Outcome Value → Outcome Answer
as_value (ok v) = ok (value v)
as_value (raised class message code) = raised class message code
as_value crash = crash

abbrev received : Client → Api → Bool → Option Response → Outcome Answer
received c api is_raw none = crash
received c api is_raw (some r) = if is_raw then ok (raw r) else as_value (process c api r)

abbrev sent : Client → Api → Bool → Option Sent → Outcome Answer
sent c api is_raw none = crash
sent c api is_raw (some s) = received c api is_raw (c.request s)

-- `__call__`: `stream` is a ValueError.
unfoldable pub call : Client → Api → Value → Arguments → Outcome Answer
unfolding request_of process_emergingai process_plain
call c api trace_id a =
    if a.stream then crash else sent c api a.return_raw_response (request_of c api trace_id a)

-- `BaseClientPool.get_client`: the index is random, from 0 to `POOL_SIZE - 1`; `none` is an IndexError.
abbrev pub pool_size : Option ℕ → ℕ
pool_size none = 1
pool_size (some zero) = 1
pool_size (some n) = n

unfoldable pub get_client : {T : Type 0} → ℕ → List T → Option T
get_client index pools = get_elem? pools index

abbrev clients : {T : Type 0} → (ℕ → T) → ℕ → List T
clients new zero = []
clients new (suc n) = new n ∷ clients new n

-- `ASyncClientPool.pools`, of the thread's local parameter.
unfoldable pub pools :
    {T : Type 0} → (ℕ → T) → Option ℕ → Option (List T) → List T × Option (List T)
pools new size none = (clients new (pool_size size), some (clients new (pool_size size)))
pools new size (some found) = (found, some found)
