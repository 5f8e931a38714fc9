-- ===== src/Api/Restful/Located.antt =====
-- Where a request for one resource goes (enova/api/base.py).
use Prim.Native.String.{◌++◌ as str_append}
use text.Mathlib.TextLemmas.{append_assoc}
use enova.Prelude.{
  sym, subst, inr, inl, Bool-cases, ◌≡◌, refl, ◌∙◌, ap, String, true, none, some, if◌then◌else◌,
}
use enova.Value.{is_empty, Value, dict, Fields, end, field, get}
use enova.Api.{
  false, call, null, request_of, has_body, Client, Arguments, Sent, received, built_url,
  actual_headers,
}
use enova.Api.Template.{
  Printer, plain, format, format_from, default_url_builder, pop_all, extract_parameters,
}
use enova.Api.Template.Fill.{is_braceless, is_braceless-append, format-append, format_field}
use enova.Api.Template.{is_name}
use enova.Api.Restful.{request, RestfulApi, resource_url, api_at}

resource_url_filled :
    (p : Printer) (d : Fields) (url key : String) {v : Value}
    → is_braceless url ≡ true
    → is_name key ≡ true
    → is_braceless key ≡ true
    → get key d ≡ some v
    → format p (resource_url url key) d ≡ some (str_append (str_append url "/") (p.str v))
unfolding resource_url
resource_url_filled p d url key {v} clean name braceless there =
    let path = str_append url "/" in
    ap (format_from p d (some plain)) (append_assoc path "{" (str_append key "}"))
    ∙ format-append p d path (str_append "{" (str_append key "}"))
        (is_braceless-append url "/" clean refl) (format_field p d key name braceless there)

filled_dict : (d : Fields) (key : String) {v : Value} → get key d ≡ some v → is_empty d ≡ false
filled_dict end key h = cc
filled_dict (field k v rest) key h = refl

-- The dict as the builder of the URL leaves it.
abbrev pub rest_of : RestfulApi → String → Fields → Fields
rest_of r key d =
    if r.remove_url_key then pop_all (extract_parameters (resource_url r.url key)) d else d

url_built :
    (c : Client) (r : RestfulApi) (method key : String) (d : Fields) {actual : String}
    → r.url_builder ≡ none
    → format c.printer (resource_url r.url key) d ≡ some actual
    → built_url c (api_at r method (resource_url r.url key)) (dict d)
      ≡ some (actual, dict (rest_of r key d))
unfolding default_url_builder
url_built c r method key d {actual} default_ filled = rw (default_, filled) refl

-- The request of one resource: its method, its place, and the dict in the body of a "post" or a "put" and
-- in the query of any other.
abbrev pub sent_to : RestfulApi → String → String → Fields → String → Value → Arguments → Sent
sent_to r method key d location trace_id a = record {
  method = method;
  url = location;
  params = if has_body method then null else dict (rest_of r key d);
  json = if has_body method then dict (rest_of r key d) else null;
  headers = actual_headers trace_id r.header_builder a.headers;
  extras = a.extras;
}

query_built :
    (c : Client) (r : RestfulApi) (method key : String) (d : Fields) (trace_id : Value)
    (a : Arguments) {actual : String}
    → is_empty d ≡ false
    → has_body method ≡ false
    → built_url c (api_at r method (resource_url r.url key)) (dict d)
      ≡ some (actual, dict (rest_of r key d))
    → request_of c
        (api_at r method (resource_url r.url key))
        trace_id
        (record a { params = dict d })
      ≡ some (sent_to r method key d actual trace_id a)
unfolding request_of
query_built c r method key end trace_id a filled query built = cc
query_built c r method key (field k v rest) trace_id a filled query built = rw (query, built) refl

request_built :
    (c : Client) (r : RestfulApi) (method key : String) (d : Fields) (trace_id : Value)
    (a : Arguments) {actual : String} {v : Value}
    → a.params ≡ dict d
    → get key d ≡ some v
    → built_url c (api_at r method (resource_url r.url key)) (dict d)
      ≡ some (actual, dict (rest_of r key d))
    → request_of c (api_at r method (resource_url r.url key)) trace_id a
      ≡ some (sent_to r method key d actual trace_id a)
unfolding request_of
request_built c r method key d trace_id a {actual} given there built =
    elim (Bool-cases (has_body method)) [
      | inl body ↦
          let built_here =
            ap (built_url c (api_at r method (resource_url r.url key))) given ∙ built in
          rw (body, built_here) refl
      | inr query ↦
          let api = api_at r method (resource_url r.url key) in
          subst
            (λ v.
              request_of c api trace_id (record a { params = v })
              ≡ some (sent_to r method key d actual trace_id a))
            (sym given)
            (query_built c r method key d trace_id a (filled_dict d key there) query built)
    ]

-- A request for one resource goes to the URL of its collection, a slash, and the text of the value that its
-- parameters have under the resource's key; its parameters go along, and what the client answers is
-- what it makes of the response. (The URL and the key have no braces, and the key is a name.)
pub request-sent_to :
    (c : Client) (r : RestfulApi) (method key : String) (d : Fields) (trace_id : Value)
    (a : Arguments) {v : Value}
    → r.resource_key ≡ some key
    → r.url_builder ≡ none
    → is_braceless r.url ≡ true
    → is_name key ≡ true
    → is_braceless key ≡ true
    → a.stream ≡ false
    → a.params ≡ dict d
    → get key d ≡ some v
    → request c r method true trace_id a
      ≡ received c (api_at r method (resource_url r.url key)) a.return_raw_response (
          c.request (
            sent_to r method key d
              (str_append (str_append r.url "/") (c.printer.str v))
              trace_id
              a))
unfolding request call
request-sent_to c r method key d trace_id a {v} keyed default_ clean name braceless answer given
      there =
    let filled = resource_url_filled c.printer d r.url key clean name braceless there in
    let built =
      request_built c r method key d trace_id a given there
        (url_built c r method key d default_ filled) in
    rw (keyed, answer, built) refl
