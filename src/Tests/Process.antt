-- ===== src/Tests/Process.antt =====
-- Theorems on the settings, the start of the process and its answers, at concrete inputs.
use Prim.Native.String.{◌++◌}
use ssf_transmitter.Prelude.{
  ℕ, ◌≤◌, String, ◌≡◌, ◌⊎◌, refl, subst, true, false, not, ◌||◌, none, some, [], ◌∷◌, ◌==◌,
  string_eq, nat_eq, if◌then◌else◌, truthy, any_char, arith, text_length, strip, lstrip, rstrip,
  is_space, after_prefix,
}
use ssf_transmitter.Result.{Error, ok, err}
use ssf_transmitter.Value.{Fields, text}
use ssf_transmitter.Environment.{Env, Settings, ParsedUrl, pos}
use ssf_transmitter.Crypto.Keys.{key_id, ensure_keys, with_files}
use ssf_transmitter.Scim.Url.{rstrip_slash}
use ssf_transmitter.Database.Streams.{save_stream}
use ssf_transmitter.Security.Url.{safe_hostname}
use ssf_transmitter.Crypto.{encrypt_token}
use ssf_transmitter.Startup.{
  Disk, run_preflight_checks, check_management_token, check_webhook_auth, check_database,
  check_receiver_allowlist,
}
use ssf_transmitter.Config.{
  Vars, parse_https_url, parse_sync_interval, interval_of, is_update_mode,
  parse_apple_scim_update_mode, parse_apple_scim_allow_username_recovery, parse_management_token,
  parse_webhook_auth_mode, is_webhook_auth_mode, parse_webhook_token, parse_webhook_secret,
  is_log_level, parse_log_level,
}
use ssf_transmitter.Config.Hosts.{
  split_commas, host_of, hosts_of, parse_allowed_receiver_hosts,
  parse_allowed_receiver_hosts-join_commas,
}
use ssf_transmitter.Config.Load.{read_required, read_webhook, read_settings, from_env}
use ssf_transmitter.Config.Laws.{SlashesHaveNoScheme, from_env-run_preflight_checks}
use ssf_transmitter.Main.{Found, Started, lifespan, boot}
use ssf_transmitter.Main.Laws.{IsReady, boot-IsReady}
use ssf_transmitter.Main.Headers.{HttpRequest, HttpResponse, Handler, header, application}
use ssf_transmitter.Main.Headers.Laws.{IsSecured, application-IsSecured}
use ssf_transmitter.Routes.Root.{
  escape, wants_html, is_unmatched_route, not_found_start, not_found_end, http_exception_handler,
  page, json,
}
use ssf_transmitter.Routes.Root.Laws.{is_markup, http_exception_handler_cases}
use ssf_transmitter.Tests.Setting.{settings, parsed, env, stored}

abbrev long_token : String
long_token = "0123456789abcdef0123456789abcdef"

-- A text of slashes alone is parsed without a scheme.
abbrev parsed_of : String → ParsedUrl
parsed_of url = if truthy (rstrip_slash url) then parsed else record parsed { scheme = "" }

abbrev outside : Env
outside = record env { urlparse = λ url. some (parsed_of url) }

abbrev vars : Vars
vars name =
    if name == "SSF_ISSUER"
    then some "https://ssf.example"
    else if name == "SSF_BASE_URL"
    then some "https://ssf.example/"
    else if name == "SSF_MANAGEMENT_TOKEN"
    then some long_token
    else if name == "SSF_WEBHOOK_TOKEN"
    then some long_token
    else if name == "SSF_ALLOWED_RECEIVER_HOSTS"
    then some "rx.example, ry.example,"
    else none

abbrev loaded : Settings
loaded = record settings {
  ssf_management_token = long_token;
  ssf_webhook_token = some long_token;
  ssf_allowed_receiver_hosts = "rx.example" ∷ "ry.example" ∷ [];
  apple_scim_client_id = none;
  apple_scim_client_secret = none;
  authentik_url = none;
  authentik_token = none;
  ssf_container_port = pos 3600;
}

is_loaded : from_env outside vars ≡ ok loaded
unfolding from_env read_required read_webhook read_settings parse_https_url parse_sync_interval
    interval_of is_update_mode parse_apple_scim_update_mode parse_apple_scim_allow_username_recovery
    parse_management_token parse_webhook_auth_mode is_webhook_auth_mode parse_webhook_token
    parse_webhook_secret is_log_level parse_log_level parse_allowed_receiver_hosts split_commas
    hosts_of host_of strip lstrip rstrip is_space rstrip_slash text_length
is_loaded = refl

slashes : SlashesHaveNoScheme outside
slashes url found parses bare =
    let same : parsed_of url ≡ found = ground arith in
    subst (λ p. (p.scheme == "https") ≡ false) same (rw bare refl)

abbrev disk : Disk
disk = record {
  dir_exists = true;
  dir_is_writable = true;
  file_exists = false;
  file_is_writable = false;
}

from_env-run_preflight_checks_example :
    (run_preflight_checks (record outside { settings = loaded }) disk none
      ≡ not (
          check_database disk
          || check_receiver_allowlist (record outside { settings = loaded }) none))
    × (is_update_mode "patch_all" ≡ true)
    × (is_log_level "INFO" ≡ true)
    × (1 ≤ 3600)
from_env-run_preflight_checks_example =
    from_env-run_preflight_checks outside vars loaded disk none slashes is_loaded

parse_allowed_receiver_hosts-join_commas_example :
    parse_allowed_receiver_hosts env (some "rx.example,ry.example")
    ≡ "rx.example" ∷ "ry.example" ∷ []
unfolding strip lstrip rstrip is_space any_char
parse_allowed_receiver_hosts-join_commas_example =
    parse_allowed_receiver_hosts-join_commas env "rx.example" ("ry.example" ∷ []) refl

abbrev found : Found
found = record {
  disk = disk;
  files = record { private_key = none; jwks = none };
  stored = some stored;
  sqlite = record { reads = true; writes = true };
  pair = record { pem = "pem"; public_pem = "public"; modulus = 3233; exponent = 17 };
  sha256 = λ s. "0123456789";
  b64 = λ bytes. "b64";
}

abbrev started : Started
started = record {
  env =
      with_files (record outside { settings = loaded })
        (ensure_keys found.sha256 found.b64 found.pair found.files);
  db = stored;
}

is_started : boot outside vars found ≡ some started
unfolding boot lifespan from_env run_preflight_checks check_management_token check_webhook_auth
    save_stream safe_hostname encrypt_token after_prefix
is_started = refl

boot-IsReady_example : IsReady found started
unfolding key_id
boot-IsReady_example = boot-IsReady outside vars found started refl is_started

abbrev request : HttpRequest
request = record { path = "/<b>"; headers = ("accept", "text/html") ∷ ("x-request-id", "r1") ∷ [] }

-- The routes answer with a page that names the id that they see.
abbrev routes : Handler
routes id = (
  ok (record { status = 200; headers = ("content-type", "text/html") ∷ []; body = id }),
  "changed",
)

application-IsSecured_example :
    ((application request "new" routes "outer").1 ≡ "outer")
    × (((x : Error) × ((routes "r1").0 ≡ err x)
          × ((application request "new" routes "outer").0 ≡ err x))
        ⊎ ((inner answer : HttpResponse) × ((routes "r1").0 ≡ ok inner)
            × ((application request "new" routes "outer").0 ≡ ok answer)
            × (answer.status ≡ inner.status)
            × (answer.body ≡ inner.body)
            × (header answer.headers "x-request-id" ≡ some "r1")
            × IsSecured request (header inner.headers "content-type") answer.headers))
unfolding header
application-IsSecured_example = application-IsSecured request "new" "outer" routes

is_escaped : escape request.path ≡ "/&lt;b&gt;"
unfolding escape
is_escaped = refl

http_exception_handler_cases_example :
    ((safe : String) × (http_exception_handler request 404 (text "Not Found")
        ≡ page 404 (not_found_start ++ (safe ++ not_found_end)))
      × (any_char is_markup safe ≡ false)
      × (safe ≡ escape "/<b>")
      × (is_unmatched_route 404 (text "Not Found") ≡ true)
      × (wants_html request ≡ true))
    ⊎ ((status : ℕ) × (body : Fields) × (http_exception_handler request 404 (text "Not Found")
          ≡ json status body)
        × (status ≡ 404))
http_exception_handler_cases_example = http_exception_handler_cases request 404 (text "Not Found")
