-- ===== src/Main/Headers/Laws.antt =====
-- The headers of every answer.
use ssf_transmitter.Prelude.{
  String, ◌≡◌, ◌⊎◌, ◌∙◌, ap, subst, inl, inr, refl, true, false, not, ◌&&◌, Option, some, [], ◌∷◌,
  ◌==◌, string_eq, if◌then◌else◌, arith, eq_iff, Bool-cases, contains, text_or_empty,
}
use ssf_transmitter.Result.{Error, ok, err, Result-cases}
use ssf_transmitter.Main.Headers.{
  Headers, header, set_header, HttpRequest, HttpResponse, Handler, request_id_of, is_docs_path, csp,
  with_fixed, is_html, secure_headers, request_id_dispatch, security_headers_dispatch, application,
}

header-set_header :
    (headers : Headers) (name other value : String)
    → header (set_header headers other value) name
      ≡ (if other == name then some value else header headers name)
unfolding header set_header
header-set_header [] name other value = refl
header-set_header (h ∷ headers) name other value = ground (
  arith,
  eq_iff h.0 other,
  eq_iff h.0 name,
  eq_iff other name,
  header-set_header headers name other value,
)

header_of_set :
    (headers : Headers) (name value : String)
    → header (set_header headers name value) name ≡ some value
header_of_set headers name value =
    ground (arith, eq_iff name name, header-set_header headers name name value)

-- The headers that an answer of a content type has in the end.
abbrev pub IsSecured : HttpRequest → Option String → Headers → Type 0
IsSecured request kind after =
    (header after "x-content-type-options" ≡ some "nosniff")
    × (header after "x-frame-options" ≡ some "DENY")
    × (header after "referrer-policy" ≡ some "no-referrer")
    × (header after "cache-control" ≡ some "no-store")
    × (header after "content-type" ≡ kind)
    × ((is_docs_path request.path ≡ true)
        ⊎ (contains "text/html" (text_or_empty kind) ≡ false)
        ⊎ (header after "content-security-policy" ≡ some csp))

-- What stands under a name after the four headers are set.
abbrev fixed : String → Option String → Option String
fixed name before =
    if "cache-control" == name
    then some "no-store"
    else if "referrer-policy" == name
    then some "no-referrer"
    else if "x-frame-options" == name
    then some "DENY"
    else if "x-content-type-options" == name
    then some "nosniff"
    else before

header-with_fixed :
    (headers : Headers) (name : String)
    → header (with_fixed headers) name ≡ fixed name (header headers name)
header-with_fixed headers name =
    rw (header-set_header, header-set_header, header-set_header, header-set_header) refl

-- The policy is set beside them.
header-secure_headers :
    (request : HttpRequest) (headers : Headers) (name : String)
    → ("content-security-policy" == name) ≡ false
    → header (secure_headers request headers) name ≡ fixed name (header headers name)
unfolding secure_headers
header-secure_headers request headers name other =
    let set = with_fixed headers in
    let same = header-with_fixed headers name in
    let beside = header-set_header set name "content-security-policy" csp in
    elim (Bool-cases (is_html set && not (is_docs_path request.path))) [
      | inl page ↦ rw (page, beside, other) same
      | inr other_kind ↦ rw other_kind same
    ]

secure_headers-csp :
    (request : HttpRequest) (headers : Headers)
    → (is_docs_path request.path ≡ true)
      ⊎ (is_html headers ≡ false)
      ⊎ (header (secure_headers request headers) "content-security-policy" ≡ some csp)
unfolding secure_headers
secure_headers-csp request headers =
    let set = with_fixed headers in
    let same : is_html set ≡ is_html headers =
      ap (λ o. contains "text/html" (text_or_empty o)) (header-with_fixed headers "content-type") in
    elim (Bool-cases (is_docs_path request.path)) [
      | inl docs ↦ inl docs
      | inr page ↦ elim (Bool-cases (is_html headers)) [
        | inr plain ↦ inr (inl plain)
        | inl html ↦
            inr (inr (rw (same, html, page) (header_of_set set "content-security-policy" csp)))
      ]
    ]

secure_headers-IsSecured :
    (request : HttpRequest) (headers : Headers)
    → IsSecured request (header headers "content-type") (secure_headers request headers)
secure_headers-IsSecured request headers =
    let under = header-secure_headers request headers in
    (
      under "x-content-type-options" refl,
      under "x-frame-options" refl,
      under "referrer-policy" refl,
      under "cache-control" refl,
      under "content-type" refl,
      secure_headers-csp request headers,
    )

-- Whatever the routes do, the variable of the request's id is what it was before. They see the id
-- that the client has sent, or where there is none the new one; where they raise, so does the
-- application; and where they answer, its answer is theirs with that id and the four headers of
-- security, and with the policy for pages if it is one of HTML and not of the documentation.
pub application-IsSecured :
    (request : HttpRequest) (fresh outer : String) (routes : Handler)
    → let request_id = request_id_of request fresh in
      ((application request fresh routes outer).1 ≡ outer)
      × (((x : Error) × ((routes request_id).0 ≡ err x)
            × ((application request fresh routes outer).0 ≡ err x))
          ⊎ ((inner answer : HttpResponse) × ((routes request_id).0 ≡ ok inner)
              × ((application request fresh routes outer).0 ≡ ok answer)
              × (answer.status ≡ inner.status)
              × (answer.body ≡ inner.body)
              × (header answer.headers "x-request-id" ≡ some request_id)
              × IsSecured request (header inner.headers "content-type") answer.headers))
unfolding application security_headers_dispatch request_id_dispatch
application-IsSecured request fresh outer routes =
    let request_id = request_id_of request fresh in
    (
      refl,
      elim (Result-cases (routes request_id).0) [
        | inr (x, raised) ↦ inl (x, raised, ground arith)
        | inl (inner, answered) ↦
            let named = set_header inner.headers "x-request-id" request_id in
            let answer = record inner { headers = secure_headers request named } in
            let given = header_of_set inner.headers "x-request-id" request_id in
            let secured = secure_headers-IsSecured request named in
            inr (
              inner,
              answer,
              answered,
              ground arith,
              refl,
              refl,
              header-secure_headers request named "x-request-id" refl ∙ given,
              subst (λ kind. IsSecured request kind answer.headers)
                  (header-set_header inner.headers "content-type" "x-request-id" request_id)
                  secured,
            )
      ],
    )
