-- ===== src/Main/Headers.antt =====
-- app/main.py: RequestIDMiddleware and SecurityHeadersMiddleware, in the order in which they wrap the
-- routes. Names of headers are of lower case. A handler gives its answer, or raises.
pub mod Laws
use ssf_transmitter.Prelude.{
  ℕ, String, Bool, true, false, not, ◌&&◌, ◌||◌, Option, none, some, List, [], ◌∷◌, ◌==◌, string_eq,
  if◌then◌else◌, truthy, text_or_empty, contains, ◌≡◌, ◌≢◌, refl, arith, eq_iff, Bool-cases, inl,
  inr,
}
use ssf_transmitter.Result.{Result, Error, ok, err, Result-cases}

abbrev pub Headers : Type 0
Headers = List (String × String)

unfoldable pub header : Headers → String → Option String
header [] name = none
header (h ∷ headers) name = let rest = header headers name in if h.0 == name then some h.1 else rest

-- `headers[name] = value`
unfoldable pub set_header : Headers → String → String → Headers
set_header [] name value = (name, value) ∷ []
set_header (h ∷ headers) name value =
    let rest = set_header headers name value in
    if h.0 == name then (name, value) ∷ headers else h ∷ rest

pub record HttpRequest : Type 0 where
  pub path : String
  pub headers : Headers

pub record HttpResponse : Type 0 where
  pub status : ℕ
  pub headers : Headers
  pub body : String

-- A handler, which may read the request id of the context, with the id that it leaves.
abbrev pub Handler : Type 0
Handler = String → Result HttpResponse × String

-- The id of the client, or the first eight characters of a new one.
abbrev pub request_id_of : HttpRequest → String → String
request_id_of request fresh =
    let given = text_or_empty (header request.headers "x-request-id") in
    if truthy given then given else fresh

abbrev pub with_id : String → Result HttpResponse → Result HttpResponse
with_id request_id (err x) = err x
with_id request_id (ok response) =
    ok (record response { headers = set_header response.headers "x-request-id" request_id })

-- `RequestIDMiddleware.dispatch`: the variable is reset whether the handler raises or not.
unfoldable pub request_id_dispatch : HttpRequest → String → Handler → Handler
unfolding set_header header
request_id_dispatch request fresh call_next outer =
    let request_id = request_id_of request fresh in
    (with_id request_id (call_next request_id).0, outer)

abbrev pub is_docs_path : String → Bool
is_docs_path path = path == "/docs" || path == "/redoc" || path == "/docs/oauth2-redirect"

abbrev pub csp : String
csp = "default-src 'none'; style-src 'unsafe-inline'; frame-ancestors 'none'"

abbrev pub is_html : Headers → Bool
is_html headers = contains "text/html" (text_or_empty (header headers "content-type"))

-- The four headers that every answer gets.
abbrev pub with_fixed : Headers → Headers
with_fixed headers =
    set_header
      (set_header
        (set_header (set_header headers "x-content-type-options" "nosniff") "x-frame-options"
          "DENY")
        "referrer-policy" "no-referrer")
      "cache-control" "no-store"

unfoldable pub secure_headers : HttpRequest → Headers → Headers
secure_headers request headers =
    let set = with_fixed headers in
    if is_html set && not (is_docs_path request.path)
    then set_header set "content-security-policy" csp
    else set

abbrev pub secured : HttpRequest → Result HttpResponse → Result HttpResponse
secured request (err x) = err x
secured request (ok response) =
    ok (record response { headers = secure_headers request response.headers })

-- `SecurityHeadersMiddleware.dispatch`
unfoldable pub security_headers_dispatch : HttpRequest → Handler → Handler
unfolding secure_headers
security_headers_dispatch request call_next outer =
    let done = call_next outer in (secured request done.0, done.1)

-- The application: the last middleware that was added is the outermost.
unfoldable pub application : HttpRequest → String → Handler → Handler
unfolding security_headers_dispatch request_id_dispatch
application request fresh routes =
    security_headers_dispatch request (request_id_dispatch request fresh routes)
