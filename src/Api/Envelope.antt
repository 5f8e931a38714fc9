-- ===== src/Api/Envelope.antt =====
-- A client (enova/api/base.py) and the server that it calls (enova/server/middleware).
use Prim.Native.String.{◌++◌ as str_append}
use enova.Prelude.{
  ◌≡◌, ◌≢◌, refl, ◌∙◌, ap, ℕ, zero, suc, String, true, false, List, [], ◌∷◌, none, some, str_eq,
  eq_iff, Bool-cases, inl, inr,
}
use enova.Prelude.Int.{pos}
use enova.Value.{Value, int, text, get}
use enova.Error.{Error, api_response}
use enova.Local.Laws.{get_contextvars-set}
use enova.Local.{or_fresh, Context, get_traceid, set_contextvars}
use enova.Server.Middleware.{
  or_hex, emergingai_exception_handler, Middleware, Server, Response, response, HttpRequest,
  Handler, json_response_header, is_json, is_exempt, is_envelope, envelope, failure, contains,
  wrapped, process, process_request, trace_middleware, response_middleware,
}
use enova.Server.Middleware.Laws.{made_of, made_of-json, process-made_of}
use enova.Api.{
  or_else, end, null, field, dict, Client, Outcome, ok, raised, crash, fail, process_emergingai,
}

-- What a client makes of the answer to a request.
abbrev pub Received :
    Client → List Middleware → HttpRequest → Handler → Context → Outcome Value → Type 0
Received client ms q call_next c outcome =
    (r : Response) × ((process ms q call_next c).0 ≡ some (response r))
    × (process_emergingai client r ≡ outcome)

wrapped_result :
    (s : Server) (trace_id resp : Value)
    → is_envelope resp ≡ some false
    → wrapped s 200 trace_id resp ≡ some (envelope s 0 resp trace_id)
unfolding wrapped
wrapped_result s trace_id resp h = rw (h, wrapped) refl

received_result :
    (client : Client) (s : Server) (r : Response) (trace_id resp : Value)
    → process_emergingai client (made_of s r (envelope s 0 resp trace_id)) ≡ ok resp
unfolding process_emergingai contains
received_result client s r trace_id resp =
    let json = ap is_json (made_of-json s r (envelope s 0 resp trace_id)) in rw json refl

-- The body of an exception handler, with the id that the middleware adds.
abbrev traced_failure : Value → Value → ℕ → Value
traced_failure trace_id message code = dict (
    field "message" message
      (field "code" (int (pos code)) (field "result" null (field "trace_id" trace_id end))))

wrapped-failure :
    (s : Server) (status : ℕ) (trace_id message : Value) (code : ℕ)
    → wrapped s status trace_id (failure message code) ≡ some (traced_failure trace_id message code)
unfolding wrapped contains
wrapped-failure s status trace_id message code = refl

-- The text that an error's code is made of: the basic and the module code, and what is printed of its
-- own.
abbrev pub code_text : Client → Value → String
code_text client code =
    str_append
      (str_append (or_else client.errors.basic_error_code "100")
        (or_else client.errors.module_code "001"))
      (client.printer.str code)

fail_raised :
    (client : Client) (message : String) (code n : ℕ)
    → client.int_of (code_text client (int (pos code))) ≡ some n
    → fail {A = Value} client api_response (text message) (int (pos code))
      ≡ raised api_response (text message) n
unfolding fail
fail_raised client message code n read =
    ap (λ o. elim o [ none ↦ crash | some k ↦ raised api_response (text message) k ]) read

received_failure :
    (client : Client) (s : Server) (r : Response) (trace_id : Value) (message : String) (code n : ℕ)
    → code ≢ 0
    → client.int_of (code_text client (int (pos code))) ≡ some n
    → process_emergingai client (made_of s r (traced_failure trace_id (text message) code))
      ≡ raised api_response (text message) n
unfolding process_emergingai contains
received_failure client s r trace_id message zero n nonzero read = elim (nonzero refl) [ ]
received_failure client s r trace_id message (suc k) n nonzero read =
    let json = ap is_json (made_of-json s r (traced_failure trace_id (text message) (suc k))) in
    rw json (fail_raised client message (suc k) n read)

given_id : (fresh id : String) → id ≢ "" → or_hex fresh (some (text id)) ≡ text id
given_id fresh id there = elim (Bool-cases (str_eq id "")) [
  | inl empty ↦ elim (there ((eq_iff id "").0 empty)) [ ]
  | inr filled ↦ rw filled refl
]

-- The id of a request that carries one.
traceid_set :
    (before fresh : String) (q : HttpRequest) (c : Context) {id : String}
    → get "trace_id" q.headers ≡ some (text id)
    → id ≢ ""
    → (get_traceid fresh (process_request before q c)).0 ≡ text id
unfolding process_request get_traceid
traceid_set before fresh q c {id} given there =
    let own = ap (or_hex before) given ∙ given_id before id there in
    ap (λ v. (get_traceid fresh (set_contextvars "trace_id" v c)).0) own
    ∙ ap (λ v. (or_fresh fresh v (set_contextvars "trace_id" (text id) c)).0)
        (get_contextvars-set "trace_id" (text id) null c)

abbrev pub both : Server → String → String → List Middleware
both s before fresh = trace_middleware before ∷ response_middleware s fresh ∷ []

module _ (client : Client) (s : Server) (before fresh : String) (q : HttpRequest)
    (call_next : Handler) (c c' : Context) (r : Response) where
  -- What a handler answers, a JSON body with status 200 that is no envelope itself, is what the client's
  -- call returns: the middlewares wrap it, and the client unwraps it.
  pub process-call :
      {result : Value}
      → is_exempt s q.path ≡ false
      → call_next q (process_request before q c) ≡ (some (response r), c')
      → r.is_streaming ≡ true
      → r.status ≡ 200
      → get "content-type" r.headers ≡ some (text json_response_header)
      → r.body ≡ some result
      → is_envelope result ≡ some false
      → Received client (both s before fresh) q call_next c (ok result)
  process-call {result} open_ answered streaming fine json body bare =
      let trace_id = (get_traceid fresh c').0 in
      let made =
        ap (λ n. wrapped s n trace_id result) fine ∙ wrapped_result s trace_id result bare in
      (
        made_of s r (envelope s 0 result trace_id),
        process-made_of s before fresh q call_next c c' r open_ answered streaming json body made,
        received_result client s r trace_id result,
      )

  -- An error that a handler raises, other than one with the code 0, is raised at the client as the
  -- error of a response: with its message, and with the number that is read of the basic code, the
  -- module code and the error's whole code after one another, where a class's own three digits belong.
  -- The path is not exempt, the response is the exception handler's JSON body, and `int` reads the text
  -- of the three codes.
  pub process-fail :
      (e : Error) (n : ℕ)
      → is_exempt s q.path ≡ false
      → call_next q (process_request before q c) ≡ (some (response r), c')
      → r.is_streaming ≡ true
      → get "content-type" r.headers ≡ some (text json_response_header)
      → r.body ≡ (emergingai_exception_handler s e).body
      → e.code ≢ 0
      → client.int_of (code_text client (int (pos e.code))) ≡ some n
      → Received client (both s before fresh) q call_next c (raised api_response (text e.message) n)
  unfolding emergingai_exception_handler
  process-fail e n open_ answered streaming json body nonzero read =
      let trace_id = (get_traceid fresh c').0 in
      (
        made_of s r (traced_failure trace_id (text e.message) e.code),
        process-made_of s before fresh q call_next c c' r open_ answered streaming json body
            (wrapped-failure s r.status trace_id (text e.message) e.code),
        received_failure client s r trace_id e.message e.code n nonzero read,
      )

-- The id that a request carries is the id in the envelope of its answer, where the path is not exempt,
-- and the handler leaves the context as it is and answers a JSON body with status 200 that is no
-- envelope itself.
pub process-trace_id :
    (s : Server) (before fresh : String) (q : HttpRequest) (call_next : Handler) (c : Context)
    (r : Response) {result : Value} {id : String}
    → is_exempt s q.path ≡ false
    → call_next q (process_request before q c) ≡ (some (response r), process_request before q c)
    → r.is_streaming ≡ true
    → r.status ≡ 200
    → get "content-type" r.headers ≡ some (text json_response_header)
    → r.body ≡ some result
    → is_envelope result ≡ some false
    → get "trace_id" q.headers ≡ some (text id)
    → id ≢ ""
    → (r' : Response) × ((process (both s before fresh) q call_next c).0 ≡ some (response r'))
      × (r'.body ≡ some (envelope s 0 result (text id)))
process-trace_id s before fresh q call_next c r {result} {id} open_ answered streaming fine json
      body bare given there =
    let own = traceid_set before fresh q c given there in
    let made =
      ap (λ v. wrapped s r.status v result) own
      ∙ ap (λ n. wrapped s n (text id) result) fine
      ∙ wrapped_result s (text id) result bare in
    (
      made_of s r (envelope s 0 result (text id)),
      process-made_of s before fresh q call_next c (process_request before q c) r open_ answered
          streaming json body made,
      refl,
    )
