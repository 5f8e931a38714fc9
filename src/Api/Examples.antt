-- ===== src/Api/Examples.antt =====
-- The theorems on the clients at concrete requests.
use enova.Prelude.{◌≡◌, refl, String, true, false, [], none, some}
use enova.Prelude.Int.{pos}
use enova.Value.{Value, null, int, text, dict, Fields, field, end}
use enova.Error.{int as digits, Error, api_response, test_start, init}
use enova.Local.{Context}
use enova.Server.Middleware.{
  process as serve, envelope, Server, Response, HttpRequest, Handler, response,
  json_response_header, emergingai_exception_handler, contains,
}
use enova.Api.{Client, ok, raised, received}
use enova.Api.Restful.{RestfulApi, request, api_at, resource_url}
use enova.Api.Restful.Located.{request-sent_to}
use enova.Api.Escaler.{enode, with_params}
use enova.Api.Envelope.{Received, both, process-call, process-fail, process-trace_id}

abbrev printed : Value → String
printed (text s) = s
printed _ = "100001406"

abbrev client : Client
client = record {
  printer = record { str = printed; special = λ _ _. none };
  int_of = λ s. some (digits s);
  errors = record { basic_error_code = none; module_code = none };
  request = λ _. none;
}

abbrev enodes : RestfulApi
enodes = enode "http://0.0.0.0:8182/api/enova"

abbrev one : Fields
one = field "instance_id" (text "01J") end

request-sent_to_example :
    request client enodes "delete" true (text "t") (with_params (dict one))
    ≡ received client
        (api_at enodes "delete"
          (resource_url "http://0.0.0.0:8182/api/enova/v1/enode" "instance_id"))
        false
        none
request-sent_to_example =
    request-sent_to client enodes "delete" "instance_id" one (text "t") (with_params (dict one))
      refl refl refl refl refl refl refl refl

abbrev server : Server
server = record {
  url_prefix = "/api/enova";
  api_version = text "v1";
  content_length = λ _. int (pos 2);
}

abbrev asked : HttpRequest
asked = record { path = "/api/enova/v1/healthz"; headers = field "trace_id" (text "abc") end }

abbrev empty : Context
empty = record { created = []; values = end }

abbrev answer : Value → Response
answer body = record {
  is_streaming = true;
  status = 200;
  headers =
      field "content-length" (int (pos 20)) (field "content-type" (text json_response_header) end);
  body = some body;
}

abbrev running : Value
running = dict (field "status" (text "running") end)

abbrev answering : Value → Handler
answering body q c = (some (response (answer body)), c)

process-call_example :
    Received client (both server "f1" "f2") asked (answering running) empty (ok running)
unfolding contains
process-call_example =
    process-call client server "f1" "f2" asked (answering running) empty _ (answer running) refl
      refl refl refl refl refl refl

abbrev not_started : Error
not_started = init client.errors test_start none none

abbrev refusal : Value
refusal = dict (
    field "message" (text "test start failed")
      (field "code" (int (pos 100001406)) (field "result" null end)))

process-fail_example :
    Received client
      (both server "f1" "f2")
      asked
      (answering refusal)
      empty
      (raised api_response (text not_started.message) 100001100001406)
unfolding emergingai_exception_handler init
process-fail_example =
    process-fail client server "f1" "f2" asked (answering refusal) empty _ (answer refusal)
      not_started 100001100001406 refl refl refl refl refl (λ e. cc) refl

process-trace_id_example :
    (r' : Response) × ((serve (both server "f1" "f2") asked (answering running) empty).0
      ≡ some (response r'))
    × (r'.body ≡ some (envelope server 0 running (text "abc")))
unfolding contains
process-trace_id_example =
    process-trace_id server "f1" "f2" asked (answering running) empty (answer running) refl refl
      refl refl refl refl refl refl (λ e. cc)
