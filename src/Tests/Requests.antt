-- ===== src/Tests/Requests.antt =====
-- Theorems on the handlers and what they read, at the setting of `Setting`.
use ssf_transmitter.Prelude.{
  ◌≤◌, ◌≡◌, ◌↔◌, ◌⊎◌, refl, true, false, none, some, [], ◌∷◌, strip, lstrip, rstrip, is_space,
  partition, length, count_where, after_prefix, text_or_empty, arith,
}
use ssf_transmitter.Result.{Error, ok, err, http}
use ssf_transmitter.Value.{get, Fields, text, obj, end, field}
use ssf_transmitter.Auth.{
  Caller, Failures, failure_limit, client_key, record_management_auth_failure,
  require_management_auth,
}
use ssf_transmitter.Auth.Laws.{
  Ascending, is_recent, record_management_auth_failure_iff, require_management_auth_iff,
}
use ssf_transmitter.Events.Mapper.{
  map_authentik_event, session_revoked_event, credential_change_event, extract_source_txn,
  extract_email, email_of, extract_body, nested_dict, extract_action, session_revoked,
}
use ssf_transmitter.Events.Mapper.Laws.{IsLogout, IsPasswordChange, map_authentik_event_cases}
use ssf_transmitter.Events.Outbox.{queued_payload}
use ssf_transmitter.Models.{
  DeliveryConfig, StreamCreateRequest, enabled, coerce_aud, validate_method, validate_event_uris,
  stream_create_request,
}
use ssf_transmitter.Routes.Streams.{create_stream_endpoint}
use ssf_transmitter.Routes.Streams.Laws.{IsConfirmed, create_stream_endpoint_cases}
use ssf_transmitter.Database.{Stream}
use ssf_transmitter.Routes.Webhook.{
  Request, declared, ignored, is_oversized, max_body_bytes, read_chunks, read_body_within_limit,
  authenticate_webhook, verify_bearer_token, parse_webhook_json, dispatch, authentik_webhook,
}
use ssf_transmitter.Routes.Webhook.Laws.{
  join, read_body_within_limit_iff, IsAuthentic, authentik_webhook-IsAuthentic,
}
use ssf_transmitter.Tests.Setting.{env, fernet_law, dns, net, queued}

abbrev logout : Fields
logout =
    field "action" (text "authentik.core.auth.logout")
      (field "user" (obj (field "email" (text " a@b.example ") end)) end)

map_authentik_event_cases_example :
    (IsLogout logout
      × (map_authentik_event env 9 logout
          ≡ session_revoked_event 9 (extract_source_txn env logout) ∷ []))
    ⊎ (IsPasswordChange logout
        × (map_authentik_event env 9 logout
            ≡ credential_change_event 9 (extract_source_txn env logout) ∷ []))
    ⊎ ((¬ IsLogout logout) × (¬ IsPasswordChange logout) × (map_authentik_event env 9 logout ≡ []))
map_authentik_event_cases_example = map_authentik_event_cases env 9 logout

abbrev delivery : DeliveryConfig
delivery = record {
  endpoint_url = "https://rx.example/set";
  method = none;
  endpoint_url_token = some "secret";
  authorization_header = none;
}

abbrev body : StreamCreateRequest
body = record {
  aud = "aud";
  delivery = delivery;
  events_requested = session_revoked ∷ [];
  status = enabled;
}

create_stream_endpoint_cases_example :
    ((x : Error) × ((create_stream_endpoint env dns net body "s2" "jti" 9 queued).answer ≡ err x)
      × ((create_stream_endpoint env dns net body "s2" "jti" 9 queued).db ≡ queued))
    ⊎ ((s : Stream) × IsConfirmed env fernet_law dns net body.delivery.endpoint_url s
          (create_stream_endpoint env dns net body "s2" "jti" 9 queued))
create_stream_endpoint_cases_example =
    create_stream_endpoint_cases env fernet_law dns net body "s2" "jti" 9 queued

abbrev caller : Caller
caller = record { host = some "10.0.0.9"; authorization = some "Bearer manage" }

abbrev failures : Failures
failures key = 3 ∷ 4 ∷ []

require_management_auth_iff_example :
    ((require_management_auth env true 9 caller failures).0 ≡ ok tt) ↔ (
      after_prefix "Bearer " (text_or_empty caller.authorization)
      ≡ some env.settings.ssf_management_token)
require_management_auth_iff_example = require_management_auth_iff env 9 caller failures true

has_email : extract_email env logout ≡ some "a@b.example"
unfolding extract_email email_of extract_body nested_dict get strip lstrip rstrip is_space
has_email = refl

body_is_accepted :
    stream_create_request (text "aud") delivery (session_revoked ∷ []) enabled ≡ ok body
unfolding stream_create_request coerce_aud validate_method validate_event_uris strip lstrip rstrip
    is_space
body_is_accepted = refl

failures-Ascending : Ascending 0 (failures (client_key caller))
failures-Ascending = (omega arith, (omega arith, tt))

record_management_auth_failure_iff_example :
    (((record_management_auth_failure true 9 caller failures).0
        ≡ err (http 429 "Rate limit exceeded"))
      ↔ (failure_limit ≤ count_where (is_recent 9) (failures (client_key caller))))
    × (("10.0.0.7" ≡ client_key caller)
        ⊎ ((record_management_auth_failure true 9 caller failures).1 "10.0.0.7"
            ≡ failures "10.0.0.7"))
record_management_auth_failure_iff_example =
    record_management_auth_failure_iff 9 caller failures "10.0.0.7" failures-Ascending

abbrev hook : Request
hook = record {
  content_length = declared 3;
  authorization = some "bearer hook";
  x_authentik_signature = none;
  chunks = (1 ∷ 2 ∷ []) ∷ (3 ∷ []) ∷ [];
}

read_body_within_limit_iff_example : (read_body_within_limit hook ≡ ok (1 ∷ 2 ∷ 3 ∷ [])) ↔ (
    (is_oversized hook.content_length ≡ false)
    × ((1 ∷ 2 ∷ 3 ∷ []) ≡ join hook.chunks)
    × (length (join hook.chunks) ≤ max_body_bytes))
read_body_within_limit_iff_example = read_body_within_limit_iff hook (1 ∷ 2 ∷ 3 ∷ [])

hook_is_served : authentik_webhook env 9 [] hook queued ≡ ok (ignored "unmapped_event", queued)
unfolding authentik_webhook read_body_within_limit read_chunks authenticate_webhook
    verify_bearer_token partition parse_webhook_json dispatch map_authentik_event extract_action
    extract_body nested_dict get queued_payload
hook_is_served = refl

authentik_webhook-IsAuthentic_example :
    (length (join hook.chunks) ≤ max_body_bytes)
    × IsAuthentic env hook (join hook.chunks)
    × ((json : Fields) × (parse_webhook_json env (join hook.chunks) ≡ ok json)
        × (dispatch env 9 [] json queued ≡ ok (ignored "unmapped_event", queued)))
authentik_webhook-IsAuthentic_example =
    authentik_webhook-IsAuthentic env 9 [] hook queued queued (ignored "unmapped_event")
      hook_is_served
