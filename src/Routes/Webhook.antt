-- ===== src/Routes/Webhook.antt =====
-- app/routes/webhook.py: a webhook of Authentik, from its bytes to the queue.
pub mod Laws
pub mod Queue
use ssf_transmitter.Prelude.{
  ℕ, ◌+◌, ◌*◌, partition, String, Bool, true, false, not, ◌&&◌, ◌||◌, Option, none, some, List, [],
  ◌∷◌, ◌++◌, ltb, ◌==◌, string_eq, nat_eq, if◌then◌else◌, length, where_, is_empty, truthy,
  text_or_empty, after_prefix,
}
use ssf_transmitter.Result.{
  Error, Result, ok, err, http, outbox_full, stream_changed, ◌>>=◌, ◌>>◌, raise_if,
}
use ssf_transmitter.Value.{Value, Fields, obj}
use ssf_transmitter.Environment.{Env}
use ssf_transmitter.Database.{Stream, Db}
use ssf_transmitter.Database.Streams.{list_streams}
use ssf_transmitter.Database.Ops.{Op, run}
use ssf_transmitter.Events.Mapper.{MappedEvent, map_authentik_event, extract_email}
use ssf_transmitter.Events.Outbox.{enqueue_events}

abbrev pub max_body_bytes : ℕ
max_body_bytes = 64 * 1024

-- The Content-Length header: absent, a number, or anything else. A negative number is as a
-- malformed header is, below the limit.
pub data ContentLength : Type 0 where
  absent malformed : ContentLength
  declared : ℕ → ContentLength

-- A body arrives in chunks of bytes.
pub record Request : Type 0 where
  pub content_length : ContentLength
  pub authorization : Option String
  pub x_authentik_signature : Option String
  pub chunks : List (List ℕ)

unfoldable pub verify_bearer_token : Env → Option String → Bool
verify_bearer_token e none = false
verify_bearer_token e (some authorization) =
    let (scheme, token) = partition authorization in
    let expected = text_or_empty e.settings.ssf_webhook_token in
    truthy authorization
    && (e.lower scheme == "bearer")
    && truthy token
    && truthy expected
    && token == expected

unfoldable pub verify_hmac_signature : Env → List ℕ → Option String → Bool
verify_hmac_signature e raw_body signature =
    elim (after_prefix "sha256=" (text_or_empty signature)) [
      | none ↦ false
      | some provided ↦ e.hmac_sha256 e.settings.ssf_webhook_secret raw_body == provided
    ]

abbrev pub too_large : Error
too_large = http 413 "Request body too large"

-- The loop over the chunks, with the size and the bytes so far.
unfoldable pub read_chunks : ℕ → List ℕ → List (List ℕ) → Result (List ℕ)
read_chunks size body [] = ok body
read_chunks size body (chunk ∷ chunks) =
    let rest = read_chunks (size + length chunk) (body ++ chunk) chunks in
    if ltb max_body_bytes (size + length chunk) then err too_large else rest

abbrev pub is_oversized : ContentLength → Bool
is_oversized (declared n) = ltb max_body_bytes n
is_oversized _ = false

unfoldable pub read_body_within_limit : Request → Result (List ℕ)
unfolding read_chunks
read_body_within_limit request = do
  raise_if (is_oversized request.content_length) too_large
  read_chunks 0 [] request.chunks

unfoldable pub authenticate_webhook : Env → Request → List ℕ → Result (Unit {0})
unfolding verify_bearer_token verify_hmac_signature
authenticate_webhook e request raw_body =
    let mode = e.settings.ssf_webhook_auth_mode in
    if mode == "bearer"
    then raise_if (not (verify_bearer_token e request.authorization)) (http 401 "Unauthorized")
    else if mode == "hmac"
    then raise_if (not (verify_hmac_signature e raw_body request.x_authentik_signature))
        (http 401 "Unauthorized")
    else if mode == "unsigned"
    then ok tt
    else err (http 500 "Invalid webhook auth configuration")

abbrev object_or_raise : Option Value → Result Fields
object_or_raise (some (obj payload)) = ok payload
object_or_raise _ = err (http 400 "Invalid JSON body")

unfoldable pub parse_webhook_json : Env → List ℕ → Result Fields
parse_webhook_json e raw_body = object_or_raise (e.loads_bytes raw_body)

pub data Reply : Type 0 where
  ignored : String → Reply
  accepted : ℕ → Reply

-- The answers to the exceptions of the queue.
abbrev pub queue_error : Error → Error
queue_error outbox_full = http 503 "Delivery queue is full; retry the webhook later"
queue_error stream_changed =
    http 503 "Stream configuration changed before delivery could be queued; retry the webhook"
queue_error x = x

abbrev pub queue_reply : Result (ℕ × Db) → Result (Reply × Db)
queue_reply (ok (queued, db)) = ok (accepted queued, db)
queue_reply (err x) = err (queue_error x)

abbrev pub enabled_streams : Env → Db → List Stream
enabled_streams e db = where_ (λ s. s.status == "enabled") (list_streams e db)

-- The part behind the authentication. `during` is what other tasks do to the tables between the
-- reading of the streams and the queueing.
unfoldable pub dispatch : Env → ℕ → List Op → Fields → Db → Result (Reply × Db)
dispatch e now during payload db =
    let events = map_authentik_event e now payload in
    let email = text_or_empty (extract_email e payload) in
    let streams = enabled_streams e db in
    if is_empty events
    then ok (ignored "unmapped_event", db)
    else if not (truthy email)
    then ok (ignored "missing_email", db)
    else if is_empty streams
    then ok (ignored "no_enabled_stream", db)
    else queue_reply (enqueue_events e now streams events email (run e during db))

unfoldable pub authentik_webhook : Env → ℕ → List Op → Request → Db → Result (Reply × Db)
unfolding read_body_within_limit authenticate_webhook parse_webhook_json dispatch
authentik_webhook e now during request db = do
  raw_body ← read_body_within_limit request
  authenticate_webhook e request raw_body
  payload ← parse_webhook_json e raw_body
  dispatch e now during payload db
