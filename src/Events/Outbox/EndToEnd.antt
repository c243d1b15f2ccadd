-- ===== src/Events/Outbox/EndToEnd.antt =====
-- A SET that has been queued is delivered, unaltered.
use ssf_transmitter.Prelude.{ℕ, String, ◌≡◌, refl, true, some, [], ◌∷◌, arith, eq_iff}
use ssf_transmitter.Result.{ok}
use ssf_transmitter.Value.{obj, all_str-items_of, items_eq-items_of}
use ssf_transmitter.Environment.{Env}
use ssf_transmitter.Crypto.Laws.{FernetRoundTrip, decrypt_sensitive_data-encrypt_sensitive_data}
use ssf_transmitter.Database.{Stream, Db}
use ssf_transmitter.Database.Streams.{get_stream_by_id}
use ssf_transmitter.Database.Outbox.{
  outbox_row, to_item, decrypt_outbox_payload, complete_outbox_item,
}
use ssf_transmitter.Database.Ops.{run}
use ssf_transmitter.Value.{Fields, get}
use ssf_transmitter.Events.Pusher.{request_of}
use ssf_transmitter.Events.Pusher.Laws.{IsCurrent, IsAccepted, push_signed_set-delivers}
use ssf_transmitter.Events.Outbox.{
  World, in_time, queued_payload, valid_payload, payload_matches_stream, token_of, deliver_payload,
  deliver_item,
}

valid_payload-queued_payload :
    (s : Stream) (uri token : String) → valid_payload (queued_payload s uri token) ≡ true
unfolding valid_payload queued_payload get
valid_payload-queued_payload s uri token = ground (arith, all_str-items_of s.events_requested)

payload_matches_stream-queued_payload :
    (s : Stream) (uri token : String) → payload_matches_stream (queued_payload s uri token) s ≡ true
unfolding payload_matches_stream queued_payload get
payload_matches_stream-queued_payload s uri token = ground (
  arith,
  items_eq-items_of s.events_requested,
  eq_iff s.aud s.aud,
  eq_iff s.endpoint_url s.endpoint_url,
  eq_iff s.endpoint_token s.endpoint_token,
)

token_of-queued_payload :
    (s : Stream) (uri token : String) → token_of (queued_payload s uri token) ≡ token
unfolding queued_payload get
token_of-queued_payload s uri token = refl

module _ (e : Env) (fernet : FernetRoundTrip e) where
  -- What `enqueue_outbox` stores, the worker reads back.
  pub decrypt_outbox_payload-outbox_row :
      (now id : ℕ) (s : Stream) (payload : Fields)
      → e.loads (e.dumps (obj payload)) ≡ some (obj payload)
      → decrypt_outbox_payload e (to_item (outbox_row e now id (s, payload))) ≡ ok payload
  unfolding decrypt_outbox_payload outbox_row
  decrypt_outbox_payload-outbox_row now id s payload json =
      ground (
        arith,
        decrypt_sensitive_data-encrypt_sensitive_data e fernet (e.dumps (obj payload)),
        json,
      )

  -- A row queued for a stream that is still stored so and enabled, met by a safe endpoint that
  -- accepts the request in time, is removed after exactly one request: the signed token, to the
  -- stream's endpoint, under the stream's bearer token.
  pub deliver_item-outbox_row :
      (w : World) (now id : ℕ) (s : Stream) (uri token : String) (db : Db)
      → e.loads (e.dumps (obj (queued_payload s uri token)))
        ≡ some (obj (queued_payload s uri token))
      → get_stream_by_id e s.stream_id db ≡ some s
      → s.status ≡ "enabled"
      → w.deadline ≡ in_time
      → IsCurrent e w.net s.endpoint_url
      → IsAccepted e w.net (request_of s token)
      → deliver_item e w (to_item (outbox_row e now id (s, queued_payload s uri token))) db
        ≡ (complete_outbox_item id (run e w.during db), request_of s token ∷ [])
  unfolding deliver_item deliver_payload outbox_row
  deliver_item-outbox_row w now id s uri token db json stored enabled timely current accepted =
      ground (
        arith,
        decrypt_outbox_payload-outbox_row now id s (queued_payload s uri token) json,
        valid_payload-queued_payload s uri token,
        payload_matches_stream-queued_payload s uri token,
        token_of-queued_payload s uri token,
        push_signed_set-delivers e w.net s token current accepted,
        eq_iff s.status "enabled",
        stored,
        enabled,
        timely,
      )
