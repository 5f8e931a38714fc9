-- ===== src/Server/Middleware.antt =====
-- The middlewares and exception handlers of enova/server: middleware/base.py, middleware/trace.py,
-- middleware/response.py and server.py.
pub mod Laws
use Prim.Native.String.{◌++◌ as str_append}
use enova.Prelude.{
  ℕ, String, Bool, true, false, ◌&&◌, ◌||◌, List, [], ◌∷◌, Option, none, some, if◌then◌else◌,
  str_eq, starts_with, ◌==◌,
}
use enova.Prelude.Int.{pos}
use enova.Prelude.Text.{codes, has_part}
use enova.Value.{Value, null, int, text, list, dict, Items, nil, cons, Fields, end, field, get, set}
use enova.Error.{Error}
use enova.Local.{Context, set_contextvars, get_traceid}

-- A response of starlette. The names of its headers are in lower case; `body` is its JSON, and `none`
-- is what `loads` refuses.
pub record Response : Type 0 where
  pub is_streaming : Bool
  pub status : ℕ
  pub headers : Fields
  pub body : Option Value

-- What `call_next` may answer.
pub data Reply : Type 0 where
  response : Response → Reply
  returned : Fields → Reply

pub record HttpRequest : Type 0 where
  pub path : String
  pub headers : Fields

-- `api_config`, and the length that starlette sets for a body.
pub record Server : Type 0 where
  pub url_prefix : String
  pub api_version : Value
  pub content_length : Value → Value

abbrev pub json_response_header : String
json_response_header = "application/json"

-- `JSONResponse(status_code, content)`.
abbrev pub json_response : Server → ℕ → Value → Response
json_response s status content = record {
  is_streaming = false;
  status = status;
  headers =
      field "content-length" (s.content_length content)
        (field "content-type" (text json_response_header) end);
  body = some content;
}

abbrev is_item : String → Items → Bool
is_item k nil = false
is_item k (cons (text s) rest) = if str_eq s k then true else is_item k rest
is_item k (cons v rest) = is_item k rest

-- `k in v`; `none` is a TypeError.
unfoldable pub contains : String → Value → Option Bool
contains k (dict d) = some (elim (get k d) [ none ↦ false | some v ↦ true ])
contains k (list vs) = some (is_item k vs)
contains k (text s) = some (has_part (codes k) (codes s))
contains k _ = none

-- `v[k] = w`.
abbrev assign : String → Value → Value → Option Value
assign k w (dict d) = some (dict (set k w d))
assign k w _ = none

abbrev is_true : Option Bool → Bool
is_true none = false
is_true (some b) = b

-- `"code" in resp and "message" in resp`.
abbrev pub is_envelope : Value → Option Bool
is_envelope resp = elim (contains "code" resp) [
  | none ↦ none
  | some false ↦ some false
  | some true ↦ contains "message" resp
]

abbrev pub envelope : Server → ℕ → Value → Value → Value
envelope s code result trace_id = dict (
    field "message" (text "") (
      field "code" (int (pos code))
        (field "result" result (field "trace_id" trace_id (field "version" s.api_version end)))))

abbrev pub with_trace : Value → Value → Option Value
with_trace trace_id resp =
    if is_true (contains "trace_id" resp) then some resp else assign "trace_id" trace_id resp

-- The body of the new response.
unfoldable pub wrapped : Server → ℕ → Value → Value → Option Value
unfolding contains
wrapped s status trace_id resp = elim (is_envelope resp) [
  | none ↦ none
  | some true ↦ with_trace trace_id resp
  | some false ↦ some (envelope s (if status == 200 then 0 else status) resp trace_id)
]

-- `for k, v in response.headers.items(): if k not in resp.headers: ...`.
unfoldable pub add_headers : Fields → Fields → Fields
add_headers end headers = headers
add_headers (field k v rest) headers = elim (get k headers) [
  | none ↦ add_headers rest (set k v headers)
  | some w ↦ add_headers rest headers
]

abbrev pub rewrapped : Server → Response → Option Value → Option Reply
rewrapped s r none = none
rewrapped s r (some content) = some (
    response (record (json_response s r.status content) {
      headers = add_headers r.headers (json_response s r.status content).headers;
    }))

abbrev pub is_exempt : Server → String → Bool
is_exempt s path =
    str_eq path (str_append s.url_prefix "/docs")
    || str_eq path (str_append s.url_prefix "/redoc")
    || str_eq path (str_append s.url_prefix "/openapi.json")
    || starts_with path (str_append s.url_prefix "/admin")

-- `headers.get("content-type") == JSON_RESPONSE_HEADER`.
abbrev pub is_json : Option Value → Bool
is_json (some (text t)) = str_eq t json_response_header
is_json _ = false

abbrev loaded : Server → Value → Response → Option Value → Option Reply
loaded s trace_id r none = none
loaded s trace_id r (some resp) = rewrapped s r (wrapped s r.status trace_id resp)

abbrev pub traced : Server → Value → Reply → Option Reply
traced s trace_id (response r) =
    if r.is_streaming && is_json (get "content-type" r.headers)
    then loaded s trace_id r r.body
    else some (response r)
traced s trace_id (returned d) =
    some (response (json_response s 200 (envelope s 0 (dict d) trace_id)))

-- `ResponseMiddleware._process_response`; `none` is an exception.
unfoldable pub process_response :
    Server → String → HttpRequest → Reply → Context → Option Reply × Context
unfolding get_traceid wrapped add_headers
process_response s fresh q r c =
    if is_exempt s q.path
    then (some r, c)
    else let (trace_id, c') = get_traceid fresh c in (traced s trace_id r, c')

abbrev pub or_hex : String → Option Value → Value
or_hex fresh (some (text t)) = if str_eq t "" then text fresh else text t
or_hex fresh _ = text fresh

-- `TraceMiddleware._process_request`.
unfoldable pub process_request : String → HttpRequest → Context → Context
unfolding set_contextvars
process_request fresh q c = set_contextvars "trace_id" (or_hex fresh (get "trace_id" q.headers)) c

-- A registered middleware, by the methods that it has.
pub record Middleware : Type 0 where
  pub on_request : Option (HttpRequest → Context → Context)
  pub on_response : Option (HttpRequest → Reply → Context → Option Reply × Context)

-- `EmergingAIMultiMiddlewares.process`: the requests' methods, then the responses', both in the order
-- of registration.
unfoldable pub on_requests : List Middleware → HttpRequest → Context → Context
on_requests [] q c = c
on_requests (m ∷ rest) q c = on_requests rest q (elim m.on_request [ none ↦ c | some f ↦ f q c ])

abbrev and_then :
    (Reply → Context → Option Reply × Context) → Option Reply × Context → Option Reply × Context
and_then f (none, c) = (none, c)
and_then f (some r, c) = f r c

abbrev on_response_of : Middleware → HttpRequest → Reply → Context → Option Reply × Context
on_response_of m q r c = elim m.on_response [ none ↦ (some r, c) | some f ↦ f q r c ]

unfoldable pub on_responses :
    List Middleware → HttpRequest → Reply → Context → Option Reply × Context
on_responses [] q r c = (some r, c)
on_responses (m ∷ rest) q r c = and_then (on_responses rest q) (on_response_of m q r c)

-- The application behind the middlewares.
abbrev pub Handler : Type 0
Handler = HttpRequest → Context → Option Reply × Context

unfoldable pub process : List Middleware → HttpRequest → Handler → Context → Option Reply × Context
unfolding on_requests
process ms q call_next c = and_then (on_responses ms q) (call_next q (on_requests ms q c))

-- `TraceMiddleware` and `ResponseMiddleware`.
abbrev pub trace_middleware : String → Middleware
trace_middleware fresh = record { on_request = some (process_request fresh); on_response = none }

abbrev pub response_middleware : Server → String → Middleware
response_middleware s fresh = record {
  on_request = none;
  on_response = some (process_response s fresh);
}

-- The exception handlers of enova/server/server.py.
abbrev pub failure : Value → ℕ → Value
failure message code =
    dict (field "message" message (field "code" (int (pos code)) (field "result" null end)))

unfoldable pub emergingai_exception_handler : Server → Error → Response
emergingai_exception_handler s e = json_response s 200 (failure (text e.message) e.code)

-- The argument is `str(exc)`.
unfoldable pub unexpected_exception_handler : Server → String → Response
unexpected_exception_handler s exc = json_response s 500 (failure (text exc) 500)

-- The argument is the text with its line ends and triple blanks replaced.
unfoldable pub validation_exception_handler : Server → String → Response
validation_exception_handler s exc_str = json_response s 422 (failure (text exc_str) 422)
