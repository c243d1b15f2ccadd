-- ===== src/Database/Streams.antt =====
-- app/database.py: the operations on the `streams` table. A transaction that raises is rolled back,
-- so an operation that can raise gives the new tables only where it succeeds.
use ssf_transmitter.Prelude.{
  ℕ, String, Bool, true, false, not, ◌&&◌, ◌||◌, Option, none, some, List, [], ◌∷◌, map, ltb, ◌==◌,
  string_eq, nat_eq, strings_eq_instance, if◌then◌else◌, truthy, text_or_empty, or_text, strip,
  remove_prefix, delete_where, update_where, count_where, first_where,
}
use ssf_transmitter.Result.{Result, ok, err, value_error, ◌>>=◌, ◌>>◌, raise_if}
use ssf_transmitter.Environment.{Env}
use ssf_transmitter.Crypto.{encrypt_token}
use ssf_transmitter.Database.{Stream, StreamRow, OutboxRow, Db, is_pending, row_to_stream}

-- `events_requested` of a payload: a list of texts, or another value.
pub data Events : Type 0 where
  uris : List String → Events
  not_a_list : Events

-- The `delivery` object of a payload. `none` is a key that is absent.
pub record Delivery : Type 0 where
  pub endpoint_url : Option String
  pub endpoint_url_token : Option String
  pub authorization_header : Option String

-- The payload of `prepare_stream` and `update_stream`.
pub record Payload : Type 0 where
  pub stream_id : Option String
  pub aud : Option String
  pub delivery : Option Delivery
  pub endpoint_url : Option String
  pub endpoint_token : Option String
  pub events_requested : Option Events
  pub status : Option String

abbrev pub no_delivery : Delivery
no_delivery = record { endpoint_url = none; endpoint_url_token = none; authorization_header = none }

-- `payload.get("delivery") or {}`
abbrev pub delivery_of : Payload → Delivery
delivery_of p = elim p.delivery [ none ↦ no_delivery | some d ↦ d ]

abbrev pub default_text : Option String → String → String
default_text none d = d
default_text (some s) d = s

-- `payload.get("events_requested") or []`
abbrev or_no_events : Option Events → Events
or_no_events none = uris []
or_no_events (some ev) = ev

abbrev pub list_or_raise : Events → Result (List String)
list_or_raise (uris us) = ok us
list_or_raise not_a_list = err (value_error "events_requested must be a list when provided")

-- `fresh` is the new UUID and `now` the time.
unfoldable pub prepare_stream : Payload → String → ℕ → Result Stream
prepare_stream payload fresh now = do
  let delivery = delivery_of payload
  let endpoint_url =
      or_text (text_or_empty delivery.endpoint_url) (text_or_empty payload.endpoint_url)
  let auth_header = text_or_empty delivery.authorization_header
  let endpoint_token = or_text (text_or_empty delivery.endpoint_url_token) (
      or_text (text_or_empty payload.endpoint_token)
        (if truthy auth_header then remove_prefix auth_header "Bearer " else ""))
  let aud = text_or_empty payload.aud
  raise_if (not (truthy endpoint_url)) (value_error "Missing delivery.endpoint_url")
  raise_if (not (truthy aud)) (value_error "Missing aud")
  events ← list_or_raise (or_no_events payload.events_requested)
  ok (record {
    stream_id = or_text (text_or_empty payload.stream_id) fresh;
    aud = aud;
    endpoint_url = endpoint_url;
    endpoint_token = endpoint_token;
    events_requested = events;
    status = default_text payload.status "enabled";
    created_at = now;
  })

-- The row that `save_stream` inserts.
unfoldable pub stream_row : Env → Stream → StreamRow
stream_row e s = record {
  stream_id = s.stream_id;
  aud = s.aud;
  endpoint_url = s.endpoint_url;
  endpoint_token = encrypt_token e s.endpoint_token;
  events_requested = s.events_requested;
  status = s.status;
  created_at = s.created_at;
}

unfoldable pub save_stream : Env → Stream → Db → Db
unfolding stream_row
save_stream e stream db = record db {
  outbox = delete_where is_pending db.outbox;
  streams = stream_row e stream ∷ [];
}

unfoldable pub create_stream : Env → Payload → String → ℕ → Db → Result (Stream × Db)
create_stream e payload fresh now db = do
  stream ← prepare_stream payload fresh now
  ok (stream, save_stream e stream db)

-- ORDER BY created_at DESC, the rows of one time in the order of the table
unfoldable pub insert_desc : StreamRow → List StreamRow → List StreamRow
insert_desc r [] = r ∷ []
insert_desc r (x ∷ xs) =
    let rest = insert_desc r xs in if ltb r.created_at x.created_at then x ∷ rest else r ∷ x ∷ xs

unfoldable pub sort_desc : List StreamRow → List StreamRow
unfolding insert_desc
sort_desc [] = []
sort_desc (r ∷ rs) = insert_desc r (sort_desc rs)

unfoldable pub list_streams : Env → Db → List Stream
unfolding sort_desc
list_streams e db = map (row_to_stream e) (sort_desc db.streams)

abbrev pub head? {ℓ} : {A : Type ℓ} → List A → Option A
head? [] = none
head? (x ∷ xs) = some x

unfoldable pub get_first_stream : Env → Db → Option Stream
unfolding list_streams
get_first_stream e db = head? (list_streams e db)

abbrev pub has_id : String → StreamRow → Bool
has_id stream_id row = row.stream_id == stream_id

unfoldable pub get_stream_by_id : Env → String → Db → Option Stream
get_stream_by_id e stream_id db = elim (first_where (has_id stream_id) db.streams) [
  | none ↦ none
  | some row ↦ some (row_to_stream e row)
]

-- `none`: the patch keeps the stored token.
unfoldable pub replacement_endpoint_token : Payload → Option String
replacement_endpoint_token payload = elim (delivery_of payload).endpoint_url_token [
  | some token ↦ some token
  | none ↦ elim payload.endpoint_token [
    | some token ↦ some token
    | none ↦ elim (delivery_of payload).authorization_header [
      | some header ↦ some (if truthy header then remove_prefix header "Bearer " else "")
      | none ↦ none
    ]
  ]
]

unfoldable pub receiver_replacement_is_missing : Option String → Bool
receiver_replacement_is_missing none = true
receiver_replacement_is_missing (some token) = not (truthy (strip token))

unfoldable pub stored_token_is_undecryptable : String → String → Bool
stored_token_is_undecryptable stored runtime = truthy stored && not (truthy runtime)

-- The pending rows of one stream.
abbrev pub pending_of : String → OutboxRow → Bool
pending_of stream_id row = is_pending row && row.stream_id == stream_id

abbrev pub due_now : OutboxRow → OutboxRow
due_now row = record row { next_attempt_at = 0 }

abbrev pub delivery_changed : Stream → Stream → Bool
delivery_changed old new =
    not (new.aud == old.aud)
    || not (new.endpoint_url == old.endpoint_url)
    || not (new.endpoint_token == old.endpoint_token)
    || not (new.events_requested == old.events_requested)

-- What becomes of the queue: a change of the delivery configuration discards the stream's pending
-- rows, a change of the status alone to "enabled" makes them due.
unfoldable pub outbox_after_update : Stream → Stream → List OutboxRow → List OutboxRow
outbox_after_update old new outbox =
    if delivery_changed old new
    then delete_where (pending_of old.stream_id) outbox
    else if new.status == "enabled" && not (old.status == "enabled")
    then update_where (pending_of old.stream_id) due_now outbox
    else outbox

abbrev pub write_row : Stream → String → StreamRow → StreamRow
write_row new stored row = record row {
  aud = new.aud;
  endpoint_url = new.endpoint_url;
  endpoint_token = stored;
  events_requested = new.events_requested;
  status = new.status;
}

abbrev pub or_events : Option Events → List String → Events
or_events none us = uris us
or_events (some ev) us = ev

-- The stream that a patch makes of the stored one, with the events already chosen.
unfoldable pub patched : Payload → Stream → List String → Stream
patched payload stream events = record {
  stream_id = stream.stream_id;
  aud = or_text (text_or_empty payload.aud) stream.aud;
  endpoint_url =
      or_text (text_or_empty (delivery_of payload).endpoint_url)
        (or_text (text_or_empty payload.endpoint_url) stream.endpoint_url);
  endpoint_token = default_text (replacement_endpoint_token payload) stream.endpoint_token;
  events_requested = events;
  status = default_text payload.status stream.status;
  created_at = stream.created_at;
}

-- The token column after the patch.
unfoldable pub stored_token : Env → Payload → StreamRow → String
stored_token e payload row = elim (replacement_endpoint_token payload) [
  | none ↦ row.endpoint_token
  | some token ↦ encrypt_token e token
]

-- The patch enables a stream whose stored token cannot be decrypted, and supplies no new one.
unfoldable pub enables_without_token : Payload → StreamRow → Stream → Bool
enables_without_token payload row stream =
    default_text payload.status stream.status == "enabled"
    && stored_token_is_undecryptable row.endpoint_token stream.endpoint_token
    && receiver_replacement_is_missing (replacement_endpoint_token payload)

-- The two statements that the transaction writes.
unfoldable pub write_update : Stream → Stream → String → Db → Db
unfolding outbox_after_update
write_update old new stored db = record db {
  outbox = outbox_after_update old new db.outbox;
  streams = update_where (has_id old.stream_id) (write_row new stored) db.streams;
}

-- The update of the row that was read.
unfoldable pub update_row : Env → Payload → StreamRow → Db → Result (Option Stream × Db)
unfolding patched stored_token enables_without_token write_update
update_row e payload row db = do
  let stream = row_to_stream e row
  events ← list_or_raise (or_events payload.events_requested stream.events_requested)
  raise_if (enables_without_token payload row stream) (
      value_error
        "Receiver endpoint token cannot be decrypted — supply delivery.endpoint_url_token before enabling")
  let updated = patched payload stream events
  ok (some updated, write_update stream updated (stored_token e payload row) db)

unfoldable pub update_stream : Env → Payload → Db → Result (Option Stream × Db)
update_stream e payload db = elim (head? (sort_desc db.streams)) [
  | none ↦ ok (none, db)
  | some row ↦ update_row e payload row db
]

unfoldable pub delete_stream_by_id : String → Db → Bool × Db
delete_stream_by_id stream_id db =
    let deleted = ltb 0 (count_where (has_id stream_id) db.streams) in
    let outbox = if deleted then delete_where (pending_of stream_id) db.outbox else db.outbox in
    (deleted, record db { streams = delete_where (has_id stream_id) db.streams; outbox = outbox })

unfoldable pub delete_stream : Env → Db → Bool × Db
unfolding delete_stream_by_id get_first_stream
delete_stream e db = elim (get_first_stream e db) [
  | none ↦ (false, db)
  | some stream ↦ delete_stream_by_id stream.stream_id db
]
