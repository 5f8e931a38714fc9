-- ===== src/Server/Middleware/Laws.antt =====
-- What the middlewares make of a response (enova/server/middleware).
use enova.Prelude.{
  ◌≡◌, refl, ◌∙◌, sym, ap, String, true, false, [], ◌∷◌, Option, none, some, eq_iff, str_eq,
  Bool-cases, Option-cases, inl, inr,
}
use enova.Value.{Value, text, Fields, end, field, get, set}
use enova.Local.{Context, get_traceid}
use enova.Value.Laws.{get-set}
use enova.Server.Middleware.{
  is_json, traced, and_then, Server, Response, Reply, response, HttpRequest, Handler, json_response,
  json_response_header, add_headers, is_exempt, wrapped, process_response, process, on_requests,
  on_responses, trace_middleware, response_middleware, process_request,
}

get-set_other :
    (k j : String) (v : Value) (d : Fields) {w : Value}
    → get k d ≡ some w
    → get j d ≡ none
    → get k (set j v d) ≡ some w
get-set_other k j v d {w} h free = elim (Bool-cases (str_eq j k)) [
  | inl same ↦ cc (sym free ∙ ap (λ i. get i d) ((eq_iff j k).0 same) ∙ h)
  | inr other ↦ get-set j k v d ∙ rw other h
]

-- A header of the new response stays.
pub get-add_headers :
    (k : String) (more headers : Fields) {v : Value}
    → get k headers ≡ some v
    → get k (add_headers more headers) ≡ some v
unfolding add_headers
get-add_headers k end headers h = h
get-add_headers k (field j w rest) headers {v} h = elim (Option-cases (get j headers)) [
  | inl free ↦
      rw (free, add_headers)
        (get-add_headers k rest (set j w headers) (get-set_other k j w headers h free))
  | inr (u, taken) ↦ rw (taken, add_headers) (get-add_headers k rest headers h)
]

-- The new response.
abbrev pub made_of : Server → Response → Value → Response
made_of s r content = record (json_response s r.status content) {
  headers = add_headers r.headers (json_response s r.status content).headers;
}

traced_json :
    (s : Server) (r : Response) (trace_id : Value) {resp content : Value}
    → r.is_streaming ≡ true
    → get "content-type" r.headers ≡ some (text json_response_header)
    → r.body ≡ some resp
    → wrapped s r.status trace_id resp ≡ some content
    → traced s trace_id (response r) ≡ some (response (made_of s r content))
traced_json s r trace_id streaming json body made =
    let is = ap is_json json in rw (is, body, made, streaming) refl

last_one :
    (q : HttpRequest) (p : Option Reply × Context) {x : Reply}
    → p.0 ≡ some x
    → (and_then (on_responses [] q) p).0 ≡ some x
unfolding on_responses
last_one q (none, c) h = h
last_one q (some r, c) h = h

-- A JSON response, through both middlewares.
pub process-made_of :
    (s : Server) (before fresh : String) (q : HttpRequest) (call_next : Handler) (c c' : Context)
    (r : Response) {resp content : Value}
    → is_exempt s q.path ≡ false
    → call_next q (process_request before q c) ≡ (some (response r), c')
    → r.is_streaming ≡ true
    → get "content-type" r.headers ≡ some (text json_response_header)
    → r.body ≡ some resp
    → wrapped s r.status (get_traceid fresh c').0 resp ≡ some content
    → (process (trace_middleware before ∷ response_middleware s fresh ∷ []) q call_next c).0
      ≡ some (response (made_of s r content))
unfolding process on_requests on_responses process_response
process-made_of s before fresh q call_next c c' r open_ answered streaming json body made =
    ap
      (λ p.
        (and_then (on_responses (trace_middleware before ∷ response_middleware s fresh ∷ []) q)
          p).0)
      answered
    ∙ last_one q (process_response s fresh q (response r) c')
        (rw open_ (traced_json s r (get_traceid fresh c').0 streaming json body made))

pub made_of-json :
    (s : Server) (r : Response) (content : Value)
    → get "content-type" (made_of s r content).headers ≡ some (text json_response_header)
made_of-json s r content =
    get-add_headers "content-type" r.headers (json_response s r.status content).headers refl
