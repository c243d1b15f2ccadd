-- ===== src/Routes/Root.antt =====
-- app/routes/root.py, app/routes/wellknown.py and app/routes/jwks.py: the discovery documents and the
-- answers to exceptions. APP_VERSION is an argument.
pub mod Laws
use Prim.Native.Char.{Char, code}
use Prim.Native.String.{String, [], ◌∷◌, ◌++◌}
use ssf_transmitter.Prelude.{
  ℕ, Bool, true, false, not, ◌&&◌, Option, ◌==◌, nat_eq, string_eq, if◌then◌else◌, contains,
  text_or_empty,
}
use ssf_transmitter.Value.{Value, Fields, text, arr, obj, cons, nil, field, end, is_text}
use ssf_transmitter.Environment.{Env}
use ssf_transmitter.Config.Load.{public_url}
use ssf_transmitter.Main.Headers.{HttpRequest, header}

abbrev pub service_name : String
service_name = "SSF Transmitter"

abbrev pub discovery_path : String
discovery_path = "/.well-known/ssf-configuration"

-- `html.escape` of one character
abbrev pub escaped : Char → String
escaped c =
    if code c == 38
    then "&amp;"
    else if code c == 60
    then "&lt;"
    else if code c == 62
    then "&gt;"
    else if code c == 34
    then "&quot;"
    else if code c == 39
    then "&#x27;"
    else c ∷ []

-- `html.escape`
unfoldable pub escape : String → String
escape [] = []
escape (c ∷ s) = escaped c ++ escape s

unfoldable pub wants_html : HttpRequest → Bool
unfolding header contains
wants_html request =
    let accept = text_or_empty (header request.headers "accept") in
    if contains "application/json" accept && not (contains "text/html" accept)
    then false
    else contains "text/html" accept

unfoldable pub discovery_payload : String → Fields
discovery_payload version =
    field "service" (text service_name)
      (field "version" (text version) (field "discovery" (text discovery_path) end))

unfoldable pub not_found_payload : String → Fields
not_found_payload path =
    field "error" (text "not_found")
      (field "path" (text path) (field "hint" (text discovery_path) end))

-- What a page has before and after its title, and after what tells it apart.
abbrev pub page_head : String → String
page_head title =
    "<!DOCTYPE html>\n<html lang=\"en\">\n<head>\n  <meta charset=\"utf-8\">\n  <title>"
    ++ (title ++ "</title>\n</head>\n<body>\n  <h1>")

abbrev pub page_end : String
page_end =
    "  <p>SSF discovery: <a href=\""
    ++ (escape discovery_path
        ++ ("\">" ++ (escape discovery_path ++ "</a></p>\n</body>\n</html>\n")))

unfoldable pub discovery_html : String → String
unfolding escape
discovery_html version =
    page_head service_name
    ++ (service_name ++ ("</h1>\n  <p>Version " ++ (escape version ++ ("</p>\n" ++ page_end))))

abbrev pub not_found_start : String
not_found_start =
    page_head ("Not Found — " ++ service_name) ++ "Not Found</h1>\n  <p>No route for <code>"

abbrev pub not_found_end : String
not_found_end = "</code>.</p>\n" ++ page_end

unfoldable pub not_found_html : String → String
unfolding escape
not_found_html path = not_found_start ++ (escape path ++ not_found_end)

-- An answer, as a page or as JSON.
pub data Answer : Type 0 where
  page : ℕ → String → Answer
  json : ℕ → Fields → Answer

unfoldable pub service_root : String → HttpRequest → Answer
unfolding wants_html discovery_html discovery_payload
service_root version request =
    if wants_html request
    then page 200 (discovery_html version)
    else json 200 (discovery_payload version)

abbrev pub is_unmatched_route : ℕ → Value → Bool
is_unmatched_route status_code detail = status_code == 404 && is_text detail "Not Found"

-- The headers of the exception, which are passed on, are left out.
unfoldable pub http_exception_handler : HttpRequest → ℕ → Value → Answer
unfolding wants_html not_found_html not_found_payload
http_exception_handler request status_code detail =
    if is_unmatched_route status_code detail
    then if wants_html request
      then page 404 (not_found_html request.path)
      else json 404 (not_found_payload request.path)
    else json status_code (field "detail" detail end)

-- The metadata of the transmitter.
unfoldable pub ssf_configuration : Env → Fields
unfolding public_url
ssf_configuration e =
    let url = public_url e.settings in
    field "issuer" (text e.settings.ssf_issuer) (
      field "jwks_uri" (text (url "/jwks.json")) (
        field "delivery_methods_supported" (arr (cons (text "urn:ietf:rfc:8935") nil)) (
          field "configuration_endpoint" (text (url "/ssf/streams")) (
            field "add_subject_endpoint" (text (url "/ssf/streams/subjects:add")) (
              field "remove_subject_endpoint" (text (url "/ssf/streams/subjects:remove")) (
                field "status_endpoint" (text (url "/ssf/status")) (
                  field "verification_endpoint" (text (url "/ssf/verification")) (
                    field "authorization_schemes"
                      (arr (cons (obj (field "spec_urn" (text "urn:ietf:rfc:6750") end)) nil))
                      (field "critical_subject_members" (arr nil)
                        (field "spec_version" (text "1_0") end))))))))))
