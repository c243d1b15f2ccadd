-- ===== src/Database/Outbox.antt =====
-- app/database.py: the operations on the `set_outbox` table.
use ssf_transmitter.Prelude.{
  ℕ, suc, ◌+◌, String, Bool, ◌&&◌, ◌||◌, Option, none, some, List, [], ◌∷◌, ◌++◌, map, ltb, leb,
  min, ◌==◌, string_eq, nat_eq, if◌then◌else◌, length, take, where_, delete_where, update_where,
  count_where, first_where, is_empty,
}
use ssf_transmitter.Result.{
  Result, ok, err, stream_changed, outbox_full, data_undecryptable, ◌>>=◌, ◌>>◌, raise_if,
}
use ssf_transmitter.Value.{Fields, obj}
use ssf_transmitter.Environment.{Env}
use ssf_transmitter.Crypto.{encrypt_sensitive_data, decrypt_sensitive_data}
use ssf_transmitter.Database.{
  Stream, OutboxRow, OutboxItem, Db, pending, blocked, is_pending, is_blocked, stream_eq,
  max_outbox_items,
}
use ssf_transmitter.Database.Streams.{get_stream_by_id}

-- Each stream of the batch is stored as it was read, and enabled.
unfoldable pub check_streams : Env → List (Stream × Fields) → Db → Result (Unit {0})
check_streams e [] db = ok tt
check_streams e ((stream, payload) ∷ rest) db = elim (get_stream_by_id e stream.stream_id db) [
  | none ↦ err stream_changed
  | some current ↦
      if stream_eq current stream && current.status == "enabled"
      then check_streams e rest db
      else err stream_changed
]

unfoldable pub outbox_row : Env → ℕ → ℕ → Stream × Fields → OutboxRow
outbox_row e now id (stream, payload) = record {
  id = id;
  stream_id = stream.stream_id;
  payload = encrypt_sensitive_data e (e.dumps (obj payload));
  created_at = now;
  attempts = 0;
  next_attempt_at = now;
  status = pending;
  last_error = none;
}

unfoldable pub insert_rows : Env → ℕ → List (Stream × Fields) → Db → Db
unfolding outbox_row
insert_rows e now [] db = db
insert_rows e now (d ∷ ds) db = insert_rows e now ds (record db {
  outbox = db.outbox ++ outbox_row e now db.next_id d ∷ [];
  next_id = suc db.next_id;
})

unfoldable pub enqueue_outbox : Env → ℕ → List (Stream × Fields) → Db → Result (ℕ × Db)
enqueue_outbox e now deliveries db = if is_empty deliveries then ok (0, db) else do
  check_streams e deliveries db
  raise_if (ltb max_outbox_items (length db.outbox + length deliveries)) outbox_full
  ok (length deliveries, insert_rows e now deliveries db)

abbrev pub to_item : OutboxRow → OutboxItem
to_item r = record {
  id = r.id;
  stream_id = r.stream_id;
  payload = r.payload;
  created_at = r.created_at;
  attempts = r.attempts;
}

abbrev pub is_due : ℕ → OutboxRow → Bool
is_due now r = is_pending r && leb r.next_attempt_at now

-- ORDER BY created_at, id
abbrev pub is_before : OutboxRow → OutboxRow → Bool
is_before a b = ltb a.created_at b.created_at || (a.created_at == b.created_at && leb a.id b.id)

unfoldable pub insert_fifo : OutboxRow → List OutboxRow → List OutboxRow
insert_fifo r [] = r ∷ []
insert_fifo r (x ∷ xs) =
    let rest = insert_fifo r xs in if is_before r x then r ∷ x ∷ xs else x ∷ rest

unfoldable pub sort_fifo : List OutboxRow → List OutboxRow
unfolding insert_fifo
sort_fifo [] = []
sort_fifo (r ∷ rs) = insert_fifo r (sort_fifo rs)

unfoldable pub get_due_outbox : ℕ → ℕ → Db → List OutboxItem
unfolding sort_fifo
get_due_outbox limit now db = map to_item (take limit (sort_fifo (where_ (is_due now) db.outbox)))

abbrev pub row_is : ℕ → OutboxRow → Bool
row_is id r = r.id == id

unfoldable pub get_due_outbox_item : ℕ → ℕ → Db → Option OutboxItem
get_due_outbox_item id now db = elim (first_where (λ r. row_is id r && is_due now r) db.outbox) [
  | none ↦ none
  | some r ↦ some (to_item r)
]

abbrev pub pending_row : ℕ → OutboxRow → Bool
pending_row id r = row_is id r && is_pending r

unfoldable pub complete_outbox_item : ℕ → Db → Db
complete_outbox_item id db = record db { outbox = delete_where (pending_row id) db.outbox }

abbrev pub retried : ℕ → ℕ → String → OutboxRow → OutboxRow
retried attempts next_attempt_at reason r = record r {
  attempts = attempts;
  next_attempt_at = next_attempt_at;
  last_error = some reason;
}

unfoldable pub retry_outbox_item : ℕ → ℕ → ℕ → String → Db → Db
retry_outbox_item id attempts next_attempt_at reason db = record db {
  outbox = update_where (pending_row id) (retried attempts next_attempt_at reason) db.outbox;
}

abbrev pub block_row : String → OutboxRow → OutboxRow
block_row reason r = record r { status = blocked; last_error = some reason }

unfoldable pub block_outbox_item : ℕ → String → Db → Db
block_outbox_item id reason db = record db {
  outbox = update_where (pending_row id) (block_row reason) db.outbox;
}

unfoldable pub cancel_outbox_item : ℕ → Db → Db
cancel_outbox_item id db = record db { outbox = delete_where (pending_row id) db.outbox }

abbrev pub requeued : ℕ → OutboxRow → OutboxRow
requeued now r = record r {
  status = pending;
  attempts = 0;
  next_attempt_at = now;
  last_error = none;
}

unfoldable pub requeue_blocked_outbox : ℕ → Db → ℕ × Db
requeue_blocked_outbox now db = (
  count_where is_blocked db.outbox,
  record db { outbox = update_where is_blocked (requeued now) db.outbox },
)

unfoldable pub delete_blocked_outbox : Db → ℕ × Db
delete_blocked_outbox db =
    (count_where is_blocked db.outbox, record db { outbox = delete_where is_blocked db.outbox })

unfoldable pub delete_pending_outbox : Db → ℕ × Db
delete_pending_outbox db =
    (count_where is_pending db.outbox, record db { outbox = delete_where is_pending db.outbox })

pub record OutboxStatus : Type 0 where
  pub pending_count : ℕ
  pub blocked_count : ℕ
  pub oldest_pending_at : Option ℕ
  pub stored : ℕ
  pub capacity : ℕ

abbrev earlier : Option ℕ → ℕ → ℕ
earlier none t = t
earlier (some u) t = min u t

-- MIN(created_at) FILTER (WHERE status = 'pending')
unfoldable pub oldest_pending : List OutboxRow → Option ℕ
oldest_pending [] = none
oldest_pending (r ∷ rs) =
    let rest = oldest_pending rs in if is_pending r then some (earlier rest r.created_at) else rest

unfoldable pub get_outbox_status : Db → OutboxStatus
unfolding oldest_pending
get_outbox_status db = record {
  pending_count = count_where is_pending db.outbox;
  blocked_count = count_where is_blocked db.outbox;
  oldest_pending_at = oldest_pending db.outbox;
  stored = length db.outbox;
  capacity = max_outbox_items;
}

unfoldable pub decrypt_outbox_payload : Env → OutboxItem → Result Fields
decrypt_outbox_payload e item = do
  plaintext ← decrypt_sensitive_data e item.payload
  elim (e.loads plaintext) [ some (obj payload) ↦ ok payload | _ ↦ err data_undecryptable ]
