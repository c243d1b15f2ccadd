-- ===== src/Routes/Streams.antt =====
-- app/routes/streams.py and app/routes/verification.py: the stream management API behind its
-- authentication. A handler gives its answer, the requests that it has sent, and the tables.
pub mod Laws
use Prim.Native.String.{◌++◌}
use ssf_transmitter.Prelude.{
  ℕ, ◌-◌, String, Bool, true, false, not, Option, none, some, List, [], ◌∷◌, ◌==◌, string_eq,
  if◌then◌else◌, text_or_empty, elem, where_,
}
use ssf_transmitter.Result.{
  Error, Result, ok, err, value_error, http, ◌>>=◌, ◌>>◌, raise_if, or_raise,
}
use ssf_transmitter.Environment.{Env}
use ssf_transmitter.Database.{Stream, Db}
use ssf_transmitter.Database.Streams.{
  Payload, Delivery, Events, uris, prepare_stream, save_stream, update_stream, delete_stream,
  delete_stream_by_id, get_first_stream,
}
use ssf_transmitter.Database.Outbox.{
  OutboxStatus, get_outbox_status, requeue_blocked_outbox, delete_blocked_outbox,
  delete_pending_outbox,
}
use ssf_transmitter.Events.Pusher.{Net, Request, push_verification_set}
use ssf_transmitter.Models.{
  StreamCreateRequest, StreamPatchRequest, DeliveryConfig, StreamStatus, status_value,
  supported_event_uris,
}
use ssf_transmitter.Security.Url.{Dns, validate_receiver_endpoint_url}

pub record StreamResponse : Type 0 where
  pub iss : String
  pub stream_id : String
  pub aud : String
  pub endpoint_url : String
  pub events_requested : List String
  pub events_delivered : List String
  pub status : String
  pub created_at : ℕ

unfoldable pub stream_response : Env → Stream → StreamResponse
stream_response e stream = record {
  iss = e.settings.ssf_issuer;
  stream_id = stream.stream_id;
  aud = stream.aud;
  endpoint_url = stream.endpoint_url;
  events_requested = stream.events_requested;
  events_delivered = where_ (λ u. elem u supported_event_uris) stream.events_requested;
  status = stream.status;
  created_at = stream.created_at;
}

-- `except ValueError as exc: raise HTTPException(status_code=400, ...)`
abbrev pub or_400 {ℓ} : {A : Type ℓ} → String → Result A → Result A
or_400 prefix (err (value_error m)) = err (http 400 (prefix ++ m))
or_400 prefix r = r

abbrev is_other_id : Option String → Stream → Bool
is_other_id none stream = false
is_other_id (some stream_id) stream = not (stream.stream_id == stream_id)

unfoldable pub get_stream_or_404 : Env → Option String → Db → Result Stream
get_stream_or_404 e stream_id db = do
  stream ← or_raise (get_first_stream e db) (http 404 "No stream configured")
  raise_if (is_other_id stream_id stream) (http 404 "Stream not found")
  ok stream

-- The payload that the create handler builds.
abbrev pub create_payload : StreamCreateRequest → Payload
create_payload body = record {
  stream_id = none;
  aud = some body.aud;
  delivery = some (record {
    endpoint_url = some body.delivery.endpoint_url;
    endpoint_url_token = some (text_or_empty body.delivery.endpoint_url_token);
    authorization_header = some (text_or_empty body.delivery.authorization_header);
  });
  endpoint_url = none;
  endpoint_token = none;
  events_requested = some (uris body.events_requested);
  status = some (status_value body.status);
}

-- The stream that a registration asks for, once its endpoint has been checked.
unfoldable pub candidate : Env → (String → Dns) → StreamCreateRequest → String → ℕ → Result Stream
candidate e dns body fresh now = do
  _ ← or_400 "Invalid endpoint_url: " (
      validate_receiver_endpoint_url e dns body.delivery.endpoint_url
        e.settings.ssf_allowed_receiver_hosts)
  or_400 "" (prepare_stream (create_payload body) fresh now)

pub record Handled {ℓ} (A : Type ℓ) : Type ℓ where
  pub answer : Result A
  pub sent : List Request
  pub db : Db

-- The stream is saved once its verification SET has been delivered.
unfoldable pub confirm : Env → Result Bool × List Request → Stream → Db → Handled StreamResponse
confirm e (err x, sent) stream db = record { answer = err x; sent = sent; db = db }
confirm e (ok false, sent) stream db = record {
  answer =
      err (http 502 "Verification SET delivery failed; stream registration was not confirmed.");
  sent = sent;
  db = db;
}
confirm e (ok true, sent) stream db = record {
  answer = ok (stream_response e stream);
  sent = sent;
  db = save_stream e stream db;
}

-- The name is resolved by `dns` at the check and by `net` at the push; `fresh` and `jti` are new
-- UUIDs.
unfoldable pub create_stream_endpoint :
    Env
    → (String → Dns)
    → Net
    → StreamCreateRequest
    → String
    → String
    → ℕ
    → Db
    → Handled StreamResponse
unfolding candidate confirm
create_stream_endpoint e dns net body fresh jti now db = elim (candidate e dns body fresh now) [
  | err x ↦ record { answer = err x; sent = []; db = db }
  | ok stream ↦ confirm e (push_verification_set e net now jti stream none) stream db
]

unfoldable pub get_stream_endpoint : Env → Option String → Db → Result StreamResponse
unfolding get_stream_or_404 stream_response
get_stream_endpoint e stream_id db = do
  stream ← get_stream_or_404 e stream_id db
  ok (stream_response e stream)

-- The patch is sparse: what the body leaves out is absent.
abbrev pub patch_payload : StreamPatchRequest → Payload
patch_payload body = record {
  stream_id = none;
  aud = body.aud;
  delivery = elim body.delivery [
    | none ↦ none
    | some d ↦ some (record {
      endpoint_url = some d.endpoint_url;
      endpoint_url_token = d.endpoint_url_token;
      authorization_header = d.authorization_header;
    })
  ];
  endpoint_url = none;
  endpoint_token = none;
  events_requested = elim body.events_requested [ none ↦ none | some us ↦ some (uris us) ];
  status = elim body.status [ none ↦ none | some s ↦ some (status_value s) ];
}

unfoldable pub check_patch_url : Env → (String → Dns) → Option DeliveryConfig → Result (Unit {0})
check_patch_url e dns none = ok tt
check_patch_url e dns (some d) = do
  _ ←
      or_400 "Invalid endpoint_url: "
        (validate_receiver_endpoint_url e dns d.endpoint_url e.settings.ssf_allowed_receiver_hosts)
  ok tt

unfoldable pub patch_stream_body :
    Env → (String → Dns) → StreamPatchRequest → Db → Result (StreamResponse × Db)
unfolding check_patch_url stream_response
patch_stream_body e dns body db = do
  check_patch_url e dns body.delivery
  (updated, db') ← or_400 "" (update_stream e (patch_payload body) db)
  stream ← or_raise updated (http 404 "No stream configured")
  ok (stream_response e stream, db')

unfoldable pub patch_stream_by_id_endpoint :
    Env → (String → Dns) → String → StreamPatchRequest → Db → Result (StreamResponse × Db)
unfolding patch_stream_body get_stream_or_404
patch_stream_by_id_endpoint e dns stream_id body db = do
  _ ← get_stream_or_404 e (some stream_id) db
  patch_stream_body e dns body db

-- 204 whether a stream was stored or not.
unfoldable pub delete_stream_endpoint : Env → Db → Db
delete_stream_endpoint e db = (delete_stream e db).1

unfoldable pub delete_stream_by_id_endpoint : String → Db → Result (Unit {0}) × Db
delete_stream_by_id_endpoint stream_id db =
    let (deleted, db') = delete_stream_by_id stream_id db in
    (raise_if (not deleted) (http 404 "Stream not found"), db')

pub record Status : Type 0 where
  pub stream_id : String
  pub aud : String
  pub events_requested : List String
  pub status : String

abbrev status_of : Stream → Status
status_of stream = record {
  stream_id = stream.stream_id;
  aud = stream.aud;
  events_requested = stream.events_requested;
  status = stream.status;
}

-- `none` is the answer for no stream, {"status": "disabled", "reason": "no_stream"}.
unfoldable pub stream_status : Env → Db → Option Status
stream_status e db = elim (get_first_stream e db) [
  | none ↦ none
  | some stream ↦ some (status_of stream)
]

unfoldable pub stream_status_by_id : Env → String → Db → Result Status
unfolding get_stream_or_404
stream_status_by_id e stream_id db = do
  stream ← get_stream_or_404 e (some stream_id) db
  ok (status_of stream)

-- The counts, and the age of the oldest pending row: 0 where the clock is behind its creation.
unfoldable pub delivery_status : ℕ → Db → OutboxStatus × Option ℕ
delivery_status now db =
    let status = get_outbox_status db in
    (status, elim status.oldest_pending_at [ none ↦ none | some oldest ↦ some (now - oldest) ])

unfoldable pub retry_blocked_deliveries : ℕ → Db → ℕ × Db
retry_blocked_deliveries now db = requeue_blocked_outbox now db

unfoldable pub discard_pending_deliveries : Db → ℕ × Db
discard_pending_deliveries db = delete_pending_outbox db

unfoldable pub discard_blocked_deliveries : Db → ℕ × Db
discard_blocked_deliveries db = delete_blocked_outbox db

abbrev pub or_502 : Result Bool → Result (Unit {0})
or_502 r = do pushed ← r; raise_if (not pushed) (http 502 "Verification SET delivery failed")

-- A verification SET for the stored stream: of any id, or of the one in the path, with the
-- receiver's state where the body has one.
unfoldable pub trigger_verification :
    Env → Net → ℕ → String → Option String → Option String → Db → Result (Unit {0}) × List Request
unfolding get_stream_or_404
trigger_verification e net now jti stream_id state db = elim (get_stream_or_404 e stream_id db) [
  | err x ↦ (err x, [])
  | ok stream ↦ (
    or_502 (push_verification_set e net now jti stream state).0,
    (push_verification_set e net now jti stream state).1,
  )
]
