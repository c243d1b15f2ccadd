-- ===== src/Events/Outbox.antt =====
-- app/events/outbox.py: the durable queue of signed SETs, from enqueueing to delivery. What other
-- tasks do to the tables while a delivery waits is an argument.
pub mod Delay
pub mod Cases
pub mod Safety
pub mod EndToEnd
pub mod Batch
pub mod Trace
pub mod Loop
pub mod Wanted
pub mod NoLoss
use ssf_transmitter.Prelude.{
  ℕ, suc, ◌+◌, ◌-◌, ◌*◌, ◌^◌, min, String, Bool, true, false, not, ◌&&◌, none, some, List, [], ◌∷◌,
  ◌++◌, ◌==◌, string_eq, if◌then◌else◌,
}
use ssf_transmitter.Result.{Result, ok, err, ◌>>=◌}
use ssf_transmitter.Value.{
  Value, Fields, text, arr, obj, end, field, get, is_str, is_text, all_str, items_of, items_eq,
}
use ssf_transmitter.Environment.{Env}
use ssf_transmitter.Crypto.Set.{sign_set}
use ssf_transmitter.Database.{Stream, OutboxItem, Db}
use ssf_transmitter.Database.Streams.{get_stream_by_id}
use ssf_transmitter.Database.Outbox.{
  enqueue_outbox, get_due_outbox, get_due_outbox_item, complete_outbox_item, retry_outbox_item,
  block_outbox_item, cancel_outbox_item, decrypt_outbox_payload,
}
use ssf_transmitter.Database.Ops.{Op, run}
use ssf_transmitter.Events.Mapper.{MappedEvent}
use ssf_transmitter.Events.Pusher.{Net, Request, is_filtered, push_signed_set}

abbrev pub retry_base_seconds : ℕ
retry_base_seconds = 5

abbrev pub retry_max_seconds : ℕ
retry_max_seconds = 60 * 60

abbrev pub paused_recheck_seconds : ℕ
paused_recheck_seconds = 30

-- The payload that is queued for one stream and one signed event.
unfoldable pub queued_payload : Stream → String → String → Fields
queued_payload stream uri token = field "aud" (text stream.aud) (
    field "endpoint_url" (text stream.endpoint_url) (
      field "endpoint_token" (text stream.endpoint_token) (
        field "events_requested" (arr (items_of stream.events_requested))
          (field "event_uri" (text uri) (field "token" (text token) end)))))

-- The delivery of event `j` to stream `k` of the call, if the stream asks for it.
unfoldable pub delivery_of_event :
    Env → ℕ → String → ℕ → ℕ → Stream → MappedEvent → Result (List (Stream × Fields))
delivery_of_event e now email k j stream event = if is_filtered stream event.uri then ok [] else do
  token ←
      sign_set e now (e.uuid (k ∷ j ∷ 0 ∷ [])) (e.uuid (k ∷ j ∷ 1 ∷ [])) event.uri stream.aud email
        (obj event.payload) event.txn
  ok ((stream, queued_payload stream event.uri token) ∷ [])

unfoldable pub deliveries_of_stream :
    Env → ℕ → String → ℕ → ℕ → Stream → List MappedEvent → Result (List (Stream × Fields))
unfolding delivery_of_event
deliveries_of_stream e now email k j stream [] = ok []
deliveries_of_stream e now email k j stream (event ∷ events) = do
  first ← delivery_of_event e now email k j stream event
  rest ← deliveries_of_stream e now email k (suc j) stream events
  ok (first ++ rest)

unfoldable pub deliveries_of :
    Env → ℕ → String → ℕ → List Stream → List MappedEvent → Result (List (Stream × Fields))
unfolding deliveries_of_stream
deliveries_of e now email k [] events = ok []
deliveries_of e now email k (stream ∷ streams) events = do
  first ←
      if stream.status == "enabled"
      then deliveries_of_stream e now email k 0 stream events
      else ok []
  rest ← deliveries_of e now email (suc k) streams events
  ok (first ++ rest)

unfoldable pub enqueue_events :
    Env → ℕ → List Stream → List MappedEvent → String → Db → Result (ℕ × Db)
unfolding deliveries_of
enqueue_events e now streams events email db = do
  deliveries ← deliveries_of e now email 0 streams events
  enqueue_outbox e now deliveries db

-- `payload.get(key) == texts`
abbrev pub list_is : Value → List String → Bool
list_is (arr items) ss = items_eq items ss
list_is _ ss = false

unfoldable pub payload_matches_stream : Fields → Stream → Bool
payload_matches_stream payload stream =
    is_text (get payload "aud") stream.aud
    && is_text (get payload "endpoint_url") stream.endpoint_url
    && is_text (get payload "endpoint_token") stream.endpoint_token
    && list_is (get payload "events_requested") stream.events_requested

abbrev is_list_of_str : Value → Bool
is_list_of_str (arr items) = all_str items
is_list_of_str _ = false

unfoldable pub valid_payload : Fields → Bool
valid_payload payload =
    is_str (get payload "aud")
    && is_str (get payload "endpoint_url")
    && is_str (get payload "endpoint_token")
    && is_list_of_str (get payload "events_requested")
    && is_str (get payload "event_uri")
    && is_str (get payload "token")

unfoldable pub retry_delay : ℕ → ℕ
retry_delay attempts = min retry_max_seconds (retry_base_seconds * 2 ^ min (attempts - 1) 10)

unfoldable pub retry : ℕ → OutboxItem → String → Db → Db
unfolding retry_delay
retry now item reason =
    retry_outbox_item item.id (item.attempts + 1) (now + retry_delay (item.attempts + 1)) reason

-- `asyncio.wait_for` with the delivery deadline: the push ends in time, or is cancelled before or
-- after its request has left.
pub data Deadline : Type 0 where
  in_time cut_before_post cut_after_post : Deadline

-- What one delivery meets: the time, the network, the deadline, and what other tasks do to the
-- tables while the push is awaited.
pub record World : Type 0 where
  pub now : ℕ
  pub net : Net
  pub deadline : Deadline
  pub during : List Op

pub data Outcome : Type 0 where
  delivered refused timed_out raised : Outcome

abbrev outcome_of : Result Bool → Outcome
outcome_of (ok true) = delivered
outcome_of (ok false) = refused
outcome_of (err _) = raised

-- The push under its deadline, and what it has sent.
unfoldable pub attempt : Env → World → Stream → String → Outcome × List Request
attempt e w stream token = elim w.deadline [
  | in_time ↦ (
    outcome_of (push_signed_set e w.net stream token).0,
    (push_signed_set e w.net stream token).1,
  )
  | cut_before_post ↦ (timed_out, [])
  | cut_after_post ↦ (timed_out, (push_signed_set e w.net stream token).1)
]

-- The write that follows the push.
unfoldable pub record_outcome : ℕ → OutboxItem → Outcome → Db → Db
unfolding retry
record_outcome now item delivered db = complete_outbox_item item.id db
record_outcome now item refused db = retry now item "delivery_failed" db
record_outcome now item timed_out db = retry now item "delivery_timeout" db
record_outcome now item raised db = retry now item "delivery_error" db

abbrev token_of : Fields → String
token_of payload = elim (get payload "token") [ text token ↦ token | _ ↦ "" ]

-- The part of a delivery that has a readable, valid payload.
deliver_payload : Env → World → OutboxItem → Fields → Db → Db × List Request
unfolding attempt record_outcome
deliver_payload e w item payload db = elim (get_stream_by_id e item.stream_id db) [
  | none ↦ (cancel_outbox_item item.id db, [])
  | some stream ↦
      if not (payload_matches_stream payload stream)
      then (cancel_outbox_item item.id db, [])
      else if not (stream.status == "enabled")
      then (
        retry_outbox_item item.id item.attempts (w.now + paused_recheck_seconds) "stream_paused" db,
        [],
      )
      else let (outcome, sent) = attempt e w stream (token_of payload) in
        (record_outcome w.now item outcome (run e w.during db), sent)
]

unfoldable pub deliver_item : Env → World → OutboxItem → Db → Db × List Request
unfolding deliver_payload
deliver_item e w item db = elim (decrypt_outbox_payload e item) [
  | err _ ↦ (block_outbox_item item.id "payload_decryption_failed" db, [])
  | ok payload ↦
      if valid_payload payload
      then deliver_payload e w item payload db
      else (block_outbox_item item.id "payload_invalid" db, [])
]

-- What happens between two deliveries of a batch: other tasks write, and shutdown may be requested
-- before or while the lock is awaited.
pub record Turn : Type 0 where
  pub before : List Op
  pub stop : Bool
  pub world : World

pub record Delivered : Type 0 where
  pub attempted : ℕ
  pub sent : List Request
  pub db : Db

-- The loop of `deliver_pending` over the items that were due, `turn k` met by the k-th.
unfoldable pub deliver_items : Env → (ℕ → Turn) → ℕ → List OutboxItem → Db → Delivered
unfolding deliver_item
deliver_items e turn k [] db = record { attempted = 0; sent = []; db = db }
deliver_items e turn k (item ∷ items) db =
    let t = turn k in
    let db' = run e t.before db in
    elim t.stop [
      | true ↦ record { attempted = 0; sent = []; db = db' }
      | false ↦ elim (get_due_outbox_item item.id t.world.now db') [
        | none ↦ deliver_items e turn (suc k) items db'
        | some current ↦
            let (db'', sent) = deliver_item e t.world current db' in
            let rest = deliver_items e turn (suc k) items db'' in
            record { attempted = suc rest.attempted; sent = sent ++ rest.sent; db = rest.db }
      ]
    ]

unfoldable pub deliver_pending : Env → (ℕ → Turn) → ℕ → Db → Delivered
unfolding deliver_items
deliver_pending e turn now db = deliver_items e turn 0 (get_due_outbox 25 now db) db
