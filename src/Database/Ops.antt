-- ===== src/Database/Ops.antt =====
-- Every operation of app/database.py that writes the streams or the queue, as one type: what other
-- tasks of the process may do between two steps of a task.
use ssf_transmitter.Prelude.{ℕ, String, List, [], ◌∷◌}
use ssf_transmitter.Result.{Result, ok, err}
use ssf_transmitter.Value.{Fields}
use ssf_transmitter.Environment.{Env}
use ssf_transmitter.Database.{Stream, Db}
use ssf_transmitter.Database.Streams.{Payload, save_stream, update_stream, delete_stream_by_id}
use ssf_transmitter.Database.Outbox.{
  enqueue_outbox, complete_outbox_item, retry_outbox_item, block_outbox_item, cancel_outbox_item,
  requeue_blocked_outbox, delete_blocked_outbox, delete_pending_outbox,
}

pub data Op : Type 0 where
  save : Stream → Op
  update : Payload → Op
  delete : String → Op
  enqueue : ℕ → List (Stream × Fields) → Op
  complete cancel : ℕ → Op
  retry : ℕ → ℕ → ℕ → String → Op
  block : ℕ → String → Op
  requeue : ℕ → Op
  delete_blocked delete_pending : Op

-- A transaction that raises leaves the tables as they were.
abbrev pub committed {ℓ} : {A : Type ℓ} → Db → Result (A × Db) → Db
committed db (ok (a, db')) = db'
committed db (err _) = db

unfoldable pub apply : Env → Op → Db → Db
apply e (save stream) db = save_stream e stream db
apply e (update payload) db = committed db (update_stream e payload db)
apply e (delete stream_id) db = (delete_stream_by_id stream_id db).1
apply e (enqueue now deliveries) db = committed db (enqueue_outbox e now deliveries db)
apply e (complete id) db = complete_outbox_item id db
apply e (cancel id) db = cancel_outbox_item id db
apply e (retry id attempts next reason) db = retry_outbox_item id attempts next reason db
apply e (block id reason) db = block_outbox_item id reason db
apply e (requeue now) db = (requeue_blocked_outbox now db).1
apply e delete_blocked db = (delete_blocked_outbox db).1
apply e delete_pending db = (delete_pending_outbox db).1

unfoldable pub run : Env → List Op → Db → Db
unfolding apply
run e [] db = db
run e (op ∷ ops) db = run e ops (apply e op db)
