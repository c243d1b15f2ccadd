-- ===== src/Tests/Tables.antt =====
-- Theorems on the tables, at the stream and the row of `Setting`.
use ssf_transmitter.Prelude.{
  ◌+◌, ◌≤◌, ◌≡◌, ◌≢◌, ◌↔◌, ◌⊎◌, refl, false, none, some, List, [], ◌∷◌, ◌++◌, map, take, All,
  length, after_prefix, where_, delete_where, update_where, Option,
}
use mathlib.Core.List.{Perm}
use ssf_transmitter.Result.{ok}
use ssf_transmitter.Database.{
  Stream, StreamRow, OutboxRow, Db, row_to_stream, runtime_token, init_db, is_pending, is_blocked,
  max_outbox_items,
}
use ssf_transmitter.Database.Streams.{
  Payload, save_stream, get_first_stream, get_stream_by_id, stream_row, pending_of, due_now,
  outbox_after_update, update_row, update_stream, sort_desc, insert_desc, stored_token, patched,
  write_update, enables_without_token, stored_token_is_undecryptable,
}
use ssf_transmitter.Database.Outbox.{to_item, get_due_outbox, enqueue_outbox}
use ssf_transmitter.Crypto.{encrypt_token, decrypt_token}
use ssf_transmitter.Events.Mapper.{session_revoked}
use ssf_transmitter.Database.Ops.{save, enqueue, run}
use ssf_transmitter.Database.Invariant.{IsValid, run-init_db-IsValid}
use ssf_transmitter.Database.Fifo.{IsFifo, IsWaiting, get_due_outbox-IsFifo}
use ssf_transmitter.Database.Enqueue.{IsStored, rows_of, enqueue_outbox_iff}
use ssf_transmitter.Database.Update.{IsSameDelivery, save_stream_lem, outbox_after_update_lem}
use ssf_transmitter.Database.Patch.{update_stream_lem}
use ssf_transmitter.Tests.Setting.{env, fernet_law, receiver, payload, stored, queued}

run-init_db-IsValid_example :
    IsValid (run env (save receiver ∷ enqueue 5 ((receiver, payload) ∷ []) ∷ []) init_db)
run-init_db-IsValid_example =
    run-init_db-IsValid env (save receiver ∷ enqueue 5 ((receiver, payload) ∷ []) ∷ [])

get_due_outbox-IsFifo_example :
    (rows : List OutboxRow) × (others : List OutboxRow) × (get_due_outbox 25 6 queued
      ≡ map to_item (take 25 rows))
    × IsFifo rows
    × All (IsWaiting 6) rows
    × All (λ r. ¬ IsWaiting 6 r) others
    × Perm (rows ++ others) queued.outbox
get_due_outbox-IsFifo_example = get_due_outbox-IsFifo 25 6 queued

enqueue_outbox_iff_example :
    (enqueue_outbox env 5 ((receiver, payload) ∷ []) stored
      ≡ ok (
        1,
        record stored {
          outbox = stored.outbox ++ rows_of env 5 stored.next_id ((receiver, payload) ∷ []);
          next_id = stored.next_id + 1;
        },
      ))
    ↔ (All (IsStored env stored) ((receiver, payload) ∷ [])
        × (length stored.outbox + 1 ≤ max_outbox_items))
enqueue_outbox_iff_example = enqueue_outbox_iff env 5 (receiver, payload) [] stored

save_stream_lem_example :
    (get_first_stream env (save_stream env receiver queued) ≡ some receiver)
    × (get_stream_by_id env receiver.stream_id (save_stream env receiver queued) ≡ some receiver)
    × (where_ is_pending (save_stream env receiver queued).outbox ≡ [])
    × (where_ is_blocked (save_stream env receiver queued).outbox ≡ where_ is_blocked queued.outbox)
save_stream_lem_example = save_stream_lem env fernet_law receiver queued

abbrev paused : Stream
paused = record receiver { status = "paused" }

outbox_after_update_lem_example :
    (delete_where (pending_of paused.stream_id) (outbox_after_update paused receiver queued.outbox)
      ≡ delete_where (pending_of paused.stream_id) queued.outbox)
    × ((¬ IsSameDelivery receiver paused
          × (where_
                (pending_of paused.stream_id)
                (outbox_after_update paused receiver queued.outbox)
              ≡ []))
        ⊎ (IsSameDelivery receiver paused
            × (receiver.status ≡ "enabled")
            × (paused.status ≢ "enabled")
            × (outbox_after_update paused receiver queued.outbox
                ≡ update_where (pending_of paused.stream_id) due_now queued.outbox))
        ⊎ (IsSameDelivery receiver paused
            × ((receiver.status ≢ "enabled") ⊎ (paused.status ≡ "enabled"))
            × (outbox_after_update paused receiver queued.outbox ≡ queued.outbox)))
outbox_after_update_lem_example = outbox_after_update_lem paused receiver queued.outbox

abbrev row : StreamRow
row = stream_row env receiver

abbrev one_row : Db
one_row = record init_db { streams = row ∷ [] }

abbrev new_audience : Payload
new_audience = record {
  stream_id = none;
  aud = some "other";
  delivery = none;
  endpoint_url = none;
  endpoint_token = none;
  events_requested = none;
  status = none;
}

abbrev patched_row : Option Stream × Db
patched_row = (
  some (patched new_audience (row_to_stream env row) (session_revoked ∷ [])),
  write_update (row_to_stream env row)
      (patched new_audience (row_to_stream env row) (session_revoked ∷ []))
      (stored_token env new_audience row) one_row,
)

row_is_patched : update_stream env new_audience one_row ≡ ok patched_row
unfolding update_stream update_row sort_desc insert_desc enables_without_token row_to_stream
    runtime_token stream_row stored_token_is_undecryptable encrypt_token decrypt_token after_prefix
row_is_patched = refl

update_stream_lem_example :
    (s : Stream) × (patched_row.0 ≡ some s)
    × (s.stream_id ≡ row.stream_id)
    × (get_first_stream env patched_row.1 ≡ some s)
    × ((s.status ≢ "enabled")
        ⊎ (stored_token_is_undecryptable (stored_token env new_audience row) s.endpoint_token
            ≡ false))
update_stream_lem_example =
    update_stream_lem env fernet_law new_audience row one_row patched_row.1 patched_row.0 refl
      row_is_patched
