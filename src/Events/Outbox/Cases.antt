-- ===== src/Events/Outbox/Cases.antt =====
-- The ways in which one delivery can end, as a relation between the tables before and the result.
use ssf_transmitter.Prelude.{
  ◌+◌, ◌≡◌, inl, inr, true, false, none, some, List, [], Bool-cases, Option-cases, ◌==◌, string_eq,
}
use ssf_transmitter.Result.{Error, ok, err, Result-cases}
use ssf_transmitter.Value.{Fields}
use ssf_transmitter.Environment.{Env}
use ssf_transmitter.Database.{Stream, OutboxItem, Db}
use ssf_transmitter.Database.Streams.{get_stream_by_id}
use ssf_transmitter.Database.Outbox.{
  decrypt_outbox_payload, cancel_outbox_item, block_outbox_item, retry_outbox_item,
}
use ssf_transmitter.Database.Ops.{run}
use ssf_transmitter.Events.Pusher.{Request}
use ssf_transmitter.Events.Outbox.{
  World, attempt, record_outcome, deliver_payload, deliver_item, payload_matches_stream,
  valid_payload, token_of, paused_recheck_seconds,
}

pub data Delivers (e : Env) (w : World) (item : OutboxItem) (db : Db)
    : Db × List Request → Type 0 where
  unreadable :
      (x : Error)
      → decrypt_outbox_payload e item ≡ err x
      → Delivers e w item db (block_outbox_item item.id "payload_decryption_failed" db, [])
  invalid :
      (payload : Fields)
      → decrypt_outbox_payload e item ≡ ok payload
      → valid_payload payload ≡ false
      → Delivers e w item db (block_outbox_item item.id "payload_invalid" db, [])
  gone :
      get_stream_by_id e item.stream_id db ≡ none
      → Delivers e w item db (cancel_outbox_item item.id db, [])
  changed :
      (stream : Stream) (payload : Fields)
      → decrypt_outbox_payload e item ≡ ok payload
      → get_stream_by_id e item.stream_id db ≡ some stream
      → payload_matches_stream payload stream ≡ false
      → Delivers e w item db (cancel_outbox_item item.id db, [])
  paused :
      (stream : Stream)
      → get_stream_by_id e item.stream_id db ≡ some stream
      → (stream.status == "enabled") ≡ false
      → Delivers e w item db (
        retry_outbox_item item.id item.attempts (w.now + paused_recheck_seconds) "stream_paused" db,
        [],
      )
  pushed :
      (stream : Stream) (payload : Fields)
      → decrypt_outbox_payload e item ≡ ok payload
      → get_stream_by_id e item.stream_id db ≡ some stream
      → payload_matches_stream payload stream ≡ true
      → (stream.status == "enabled") ≡ true
      → Delivers e w item db (
        record_outcome w.now item (attempt e w stream (token_of payload)).0 (run e w.during db),
        (attempt e w stream (token_of payload)).1,
      )

module _ (e : Env) (w : World) (item : OutboxItem) where
  deliver_payload-Delivers :
      (payload : Fields) (db : Db)
      → decrypt_outbox_payload e item ≡ ok payload
      → Delivers e w item db (deliver_payload e w item payload db)
  unfolding deliver_payload
  deliver_payload-Delivers payload db opened =
      elim (Option-cases (get_stream_by_id e item.stream_id db)) [
        | inl none_found ↦ rw (none_found, deliver_payload) (gone none_found)
        | inr (stream, stored) ↦ elim (Bool-cases (payload_matches_stream payload stream)) [
          | inr differs ↦
              rw (stored, deliver_payload, differs) (changed stream payload opened stored differs)
          | inl same ↦ elim (Bool-cases (stream.status == "enabled")) [
            | inr off ↦ rw (stored, deliver_payload, same, off) (paused stream stored off)
            | inl on ↦
                rw (stored, deliver_payload, same, on) (pushed stream payload opened stored same on)
          ]
        ]
      ]

  -- Every delivery ends in one of these ways.
  pub deliver_item-Delivers : (db : Db) → Delivers e w item db (deliver_item e w item db)
  unfolding deliver_item
  deliver_item-Delivers db = elim (Result-cases (decrypt_outbox_payload e item)) [
    | inr (x, failed) ↦ rw (failed, deliver_item) (unreadable x failed)
    | inl (payload, opened) ↦ elim (Bool-cases (valid_payload payload)) [
      | inl valid ↦ rw (opened, deliver_item, valid) (deliver_payload-Delivers payload db opened)
      | inr bad ↦ rw (opened, deliver_item, bad) (invalid payload opened bad)
    ]
  ]
