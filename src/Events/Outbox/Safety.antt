-- ===== src/Events/Outbox/Safety.antt =====
-- What a delivery may send, and to whom.
use ssf_transmitter.Prelude.{
  ◌≤◌, String, ◌≡◌, ◌⊎◌, inl, inr, refl, ap, ◌∙◌, true, some, List, [], ◌∷◌, arith, eq_iff, length,
  Bool-cases, string_eq, is_empty,
}
use ssf_transmitter.Result.{ok}
use ssf_transmitter.Value.{
  Value, Items, Fields, null, boolean, int, number, bytes, text, arr, obj, cons, nil, get, is_text,
  items_of, items_eq,
}
use ssf_transmitter.Environment.{Env}
use ssf_transmitter.Database.{Stream, OutboxItem, Db}
use ssf_transmitter.Database.Streams.{get_stream_by_id}
use ssf_transmitter.Database.Outbox.{decrypt_outbox_payload}
use ssf_transmitter.Events.Pusher.{Request, request_of}
use ssf_transmitter.Events.Pusher.Laws.{IsCurrent, push_signed_set-sent}
use ssf_transmitter.Events.Outbox.{
  World, attempt, deliver_item, payload_matches_stream, list_is, token_of,
}
use ssf_transmitter.Events.Outbox.Cases.{
  Delivers, unreadable, invalid, gone, changed, paused, pushed, deliver_item-Delivers,
}

-- The payload was queued for the stream as it is now.
pub record IsFor (payload : Fields) (stream : Stream) : Type 0 where
  pub aud : get payload "aud" ≡ text stream.aud
  pub endpoint_url : get payload "endpoint_url" ≡ text stream.endpoint_url
  pub endpoint_token : get payload "endpoint_token" ≡ text stream.endpoint_token
  pub events : get payload "events_requested" ≡ arr (items_of stream.events_requested)

is_text-text : (v : Value) (s : String) → is_text v s ≡ true → v ≡ text s
is_text-text (text t) s h = ap text ((eq_iff t s).0 h)
is_text-text null s h = absurd (ground arith)
is_text-text (boolean b) s h = absurd (ground arith)
is_text-text (int n) s h = absurd (ground arith)
is_text-text (number t) s h = absurd (ground arith)
is_text-text (bytes b) s h = absurd (ground arith)
is_text-text (arr vs) s h = absurd (ground arith)
is_text-text (obj d) s h = absurd (ground arith)

items_eq-items_of : (vs : Items) (ss : List String) → items_eq vs ss ≡ true → vs ≡ items_of ss
unfolding items_eq items_of
items_eq-items_of nil [] h = refl
items_eq-items_of nil (s ∷ ss) h = absurd (ground arith)
items_eq-items_of (cons v vs) [] h = absurd (ground arith)
items_eq-items_of (cons v vs) (s ∷ ss) h =
    let first = is_text-text v s (ground arith) in
    let rest = items_eq-items_of vs ss (ground arith) in
    ap (λ v'. cons v' vs) first ∙ ap (cons (text s)) rest

list_is-items_of : (v : Value) (ss : List String) → list_is v ss ≡ true → v ≡ arr (items_of ss)
list_is-items_of (arr vs) ss h = ap arr (items_eq-items_of vs ss h)
list_is-items_of null ss h = absurd (ground arith)
list_is-items_of (boolean b) ss h = absurd (ground arith)
list_is-items_of (int n) ss h = absurd (ground arith)
list_is-items_of (number t) ss h = absurd (ground arith)
list_is-items_of (bytes b) ss h = absurd (ground arith)
list_is-items_of (text t) ss h = absurd (ground arith)
list_is-items_of (obj d) ss h = absurd (ground arith)

payload_matches_stream-IsFor :
    (payload : Fields) (stream : Stream)
    → payload_matches_stream payload stream ≡ true
    → IsFor payload stream
unfolding payload_matches_stream
payload_matches_stream-IsFor payload stream h = record {
  aud = is_text-text (get payload "aud") stream.aud (ground arith);
  endpoint_url = is_text-text (get payload "endpoint_url") stream.endpoint_url (ground arith);
  endpoint_token = is_text-text (get payload "endpoint_token") stream.endpoint_token (ground arith);
  events = list_is-items_of (get payload "events_requested") stream.events_requested (ground arith);
}

-- What entitles a delivery of the item to a request: the stream is stored and enabled, the payload
-- was queued for its present configuration, the request carries the queued token to the stream's
-- endpoint under the stream's bearer token, and the endpoint is safe now.
pub record IsEntitled (e : Env) (w : World) (item : OutboxItem) (db : Db) (request : Request)
    : Type 0 where
  pub stream : Stream
  pub payload : Fields
  pub stored : get_stream_by_id e item.stream_id db ≡ some stream
  pub enabled : stream.status ≡ "enabled"
  pub queued : decrypt_outbox_payload e item ≡ ok payload
  pub unchanged : IsFor payload stream
  pub request_is : request ≡ request_of stream (token_of payload)
  pub current : IsCurrent e w.net stream.endpoint_url

module _ (e : Env) (w : World) where
  attempt-sent :
      (stream : Stream) (token : String)
      → ((attempt e w stream token).1 ≡ [])
        ⊎ (((attempt e w stream token).1 ≡ request_of stream token ∷ [])
            × IsCurrent e w.net stream.endpoint_url)
  unfolding attempt
  attempt-sent stream token = elim (push_signed_set-sent e w.net stream token) [
    | inl nothing ↦ inl (ground arith)
    | inr (one, current) ↦ elim (Bool-cases (is_empty (attempt e w stream token).1)) [
      | inl cut ↦ inl (ground arith)
      | inr posted ↦ inr (ground arith, current)
    ]
  ]

  Delivers-sent :
      (item : OutboxItem) (db : Db) {r : Db × List Request}
      → Delivers e w item db r
      → (r.1 ≡ []) ⊎ ((q : Request) × (r.1 ≡ q ∷ []) × IsEntitled e w item db q)
  Delivers-sent item db (unreadable x _) = inl refl
  Delivers-sent item db (invalid payload _ _) = inl refl
  Delivers-sent item db (gone _) = inl refl
  Delivers-sent item db (changed stream payload _ _ _) = inl refl
  Delivers-sent item db (paused stream _ _) = inl refl
  Delivers-sent item db (pushed stream payload opened stored same on) =
      elim (attempt-sent stream (token_of payload)) [
        | inl nothing ↦ inl nothing
        | inr (one, current) ↦ inr (
          request_of stream (token_of payload),
          one,
          record {
            stream = stream;
            payload = payload;
            stored = stored;
            enabled = (eq_iff stream.status "enabled").0 on;
            queued = opened;
            unchanged = payload_matches_stream-IsFor payload stream same;
            request_is = refl;
            current = current;
          },
        )
      ]

  -- A delivery sends nothing, or one request that it is entitled to by the tables and the network
  -- at that moment.
  pub deliver_item-IsEntitled :
      (item : OutboxItem) (db : Db)
      → ((deliver_item e w item db).1 ≡ [])
        ⊎ ((q : Request) × ((deliver_item e w item db).1 ≡ q ∷ []) × IsEntitled e w item db q)
  deliver_item-IsEntitled item db = Delivers-sent item db (deliver_item-Delivers e w item db)

  pub length-deliver_item : (item : OutboxItem) (db : Db) → length (deliver_item e w item db).1 ≤ 1
  length-deliver_item item db = elim (deliver_item-IsEntitled item db) [
    | inl nothing ↦ rw nothing (omega arith)
    | inr (q, one, _) ↦ rw one (omega arith)
  ]
