-- ===== src/Database/Invariant.antt =====
-- What every sequence of the operations of app/database.py keeps: one stream at most, a queue
-- within its capacity, and ids that AUTOINCREMENT has handed out once each.
use ssf_transmitter.Prelude.{
  ℕ, suc, ◌+◌, ◌≤◌, String, ◌≡◌, refl, Bool, List, [], ◌∷◌, ◌++◌, Bool-cases, inl, inr, arith,
  length, length-append, length-delete_where, length-update_where, delete_where, update_where,
}
use ssf_transmitter.Value.{Fields}
use ssf_transmitter.Environment.{Env}
use ssf_transmitter.Database.{
  Stream, OutboxRow, Db, max_outbox_items, init_db, is_pending, is_blocked,
}
use ssf_transmitter.Database.Streams.{
  Payload, save_stream, update_stream, outbox_after_update, write_update, delete_stream_by_id,
  pending_of, due_now, has_id, write_row,
}
use ssf_transmitter.Database.Outbox.{
  outbox_row, insert_rows, enqueue_outbox, complete_outbox_item, cancel_outbox_item,
  retry_outbox_item, block_outbox_item, requeue_blocked_outbox, delete_blocked_outbox,
  delete_pending_outbox, pending_row, retried, block_row, requeued,
}
use ssf_transmitter.Database.Cases.{enqueue_cases, update_cases, update_row_cases}
use ssf_transmitter.Database.Ops.{
  Op, save, update, delete, enqueue, complete, cancel, retry, block, requeue, delete_blocked,
  delete_pending, committed, apply, run,
}

-- The ids rise along the list, from `lo` up to but not including `hi`.
abbrev pub Rising : ℕ → ℕ → List OutboxRow → Type 0
Rising lo hi [] = lo ≤ hi
Rising lo hi (r ∷ rs) = (lo ≤ r.id) × Rising (suc r.id) hi rs

pub Rising-weaken : (a b hi : ℕ) (rs : List OutboxRow) → a ≤ b → Rising b hi rs → Rising a hi rs
Rising-weaken a b hi [] h r = omega arith
Rising-weaken a b hi (x ∷ rs) h r = (omega arith, r.1)

pub Rising-append :
    (lo hi : ℕ) (rs : List OutboxRow) (r : OutboxRow)
    → r.id ≡ hi
    → Rising lo hi rs
    → Rising lo (suc hi) (rs ++ r ∷ [])
Rising-append lo hi [] r e h = (omega arith, omega arith)
Rising-append lo hi (x ∷ rs) r e h = (h.0, Rising-append (suc x.id) hi rs r e h.1)

pub delete_where-Rising :
    (p : OutboxRow → Bool) (lo hi : ℕ) (rs : List OutboxRow)
    → Rising lo hi rs
    → Rising lo hi (delete_where p rs)
delete_where-Rising p lo hi [] h = h
delete_where-Rising p lo hi (x ∷ rs) h =
    let ih = delete_where-Rising p (suc x.id) hi rs h.1 in
    ground (arith, ih, Rising-weaken lo (suc x.id) hi (delete_where p rs))

pub update_where-Rising :
    (p : OutboxRow → Bool) (f : OutboxRow → OutboxRow) (keeps : (r : OutboxRow) → (f r).id ≡ r.id)
    (lo hi : ℕ) (rs : List OutboxRow)
    → Rising lo hi rs
    → Rising lo hi (update_where p f rs)
update_where-Rising p f keeps lo hi [] h = h
update_where-Rising p f keeps lo hi (x ∷ rs) h = elim (Bool-cases (p x)) [
  | inl e ↦ rw (e, keeps x) (h.0, update_where-Rising p f keeps (suc x.id) hi rs h.1)
  | inr e ↦ rw e (h.0, update_where-Rising p f keeps (suc x.id) hi rs h.1)
]

-- The part of the invariant that is about the queue.
pub record IsQueue (next : ℕ) (rows : List OutboxRow) : Type 0 where
  pub bounded : length rows ≤ max_outbox_items
  pub rising : Rising 1 next rows

pub record IsValid (db : Db) : Type 0 where
  pub single : length db.streams ≤ 1
  pub queue : IsQueue db.next_id db.outbox

delete_where-IsQueue :
    (p : OutboxRow → Bool) (next : ℕ) (rows : List OutboxRow)
    → IsQueue next rows
    → IsQueue next (delete_where p rows)
delete_where-IsQueue p next rows q = record {
  bounded = omega (arith, length-delete_where p rows, q.bounded);
  rising = delete_where-Rising p 1 next rows q.rising;
}

update_where-IsQueue :
    (p : OutboxRow → Bool) (f : OutboxRow → OutboxRow) (keeps : (r : OutboxRow) → (f r).id ≡ r.id)
    (next : ℕ) (rows : List OutboxRow)
    → IsQueue next rows
    → IsQueue next (update_where p f rows)
update_where-IsQueue p f keeps next rows q = record {
  bounded = omega (arith, length-update_where p f rows, q.bounded);
  rising = update_where-Rising p f keeps 1 next rows q.rising;
}

deletes :
    (p : OutboxRow → Bool) (db : Db)
    → IsValid db
    → IsValid (record db { outbox = delete_where p db.outbox })
deletes p db v = record {
  single = v.single;
  queue = delete_where-IsQueue p db.next_id db.outbox v.queue;
}

updates :
    (p : OutboxRow → Bool) (f : OutboxRow → OutboxRow) (keeps : (r : OutboxRow) → (f r).id ≡ r.id)
    (db : Db)
    → IsValid db
    → IsValid (record db { outbox = update_where p f db.outbox })
updates p f keeps db v = record {
  single = v.single;
  queue = update_where-IsQueue p f keeps db.next_id db.outbox v.queue;
}

module _ (e : Env) where
  save_stream-IsValid : (s : Stream) (db : Db) → IsValid db → IsValid (save_stream e s db)
  unfolding save_stream
  save_stream-IsValid s db v = record {
    single = omega arith;
    queue = delete_where-IsQueue is_pending db.next_id db.outbox v.queue;
  }

  outbox_after_update-IsQueue :
      (old new : Stream) (next : ℕ) (rows : List OutboxRow)
      → IsQueue next rows
      → IsQueue next (outbox_after_update old new rows)
  unfolding outbox_after_update
  outbox_after_update-IsQueue old new next rows q = ground (
    arith,
    delete_where-IsQueue (pending_of old.stream_id) next rows q,
    update_where-IsQueue (pending_of old.stream_id) due_now (λ r. refl) next rows q,
  )

  insert_rows-streams :
      (now : ℕ) (ds : List (Stream × Fields)) (db : Db)
      → (insert_rows e now ds db).streams ≡ db.streams
  unfolding insert_rows
  insert_rows-streams now [] db = refl
  insert_rows-streams now (d ∷ ds) db = insert_rows-streams now ds _

  pub insert_rows-length :
      (now : ℕ) (ds : List (Stream × Fields)) (db : Db)
      → length (insert_rows e now ds db).outbox ≡ length db.outbox + length ds
  unfolding insert_rows
  insert_rows-length now [] db = omega arith
  insert_rows-length now (d ∷ ds) db =
      let row = outbox_row e now db.next_id d in
      omega (
        arith,
        insert_rows-length now ds
            (record db { outbox = db.outbox ++ row ∷ []; next_id = suc db.next_id }),
        length-append db.outbox (row ∷ []),
      )

  insert_rows-Rising :
      (now : ℕ) (ds : List (Stream × Fields)) (db : Db)
      → Rising 1 db.next_id db.outbox
      → Rising 1 (insert_rows e now ds db).next_id (insert_rows e now ds db).outbox
  unfolding insert_rows
  insert_rows-Rising now [] db h = h
  insert_rows-Rising now (d ∷ ds) db h =
      insert_rows-Rising now ds _ (Rising-append 1 db.next_id db.outbox _ refl h)

  enqueue_outbox-IsValid :
      (now : ℕ) (ds : List (Stream × Fields)) (db : Db)
      → IsValid db
      → IsValid (committed db (enqueue_outbox e now ds db))
  enqueue_outbox-IsValid now ds db v = enqueue_cases IsValid e now ds db v λ _ room. record {
    single = rw (insert_rows-streams now ds db) v.single;
    queue = record {
      bounded = rw (insert_rows-length now ds db) room;
      rising = insert_rows-Rising now ds db v.queue.rising;
    };
  }

  write_update-IsValid :
      (old new : Stream) (stored : String) (db : Db)
      → IsValid db
      → IsValid (write_update old new stored db)
  unfolding write_update
  write_update-IsValid old new stored db v = record {
    single =
        rw (length-update_where (has_id old.stream_id) (write_row new stored) db.streams) v.single;
    queue = outbox_after_update-IsQueue old new db.next_id db.outbox v.queue;
  }

  update_stream-IsValid :
      (p : Payload) (db : Db) → IsValid db → IsValid (committed db (update_stream e p db))
  update_stream-IsValid p db v =
      update_cases IsValid e p db v
        λ row _. update_row_cases IsValid e p row db v λ events _ _. write_update-IsValid _ _ _ db v

  delete_stream_by_id-IsValid :
      (id : String) (db : Db) → IsValid db → IsValid (delete_stream_by_id id db).1
  unfolding delete_stream_by_id
  delete_stream_by_id-IsValid id db v = record {
    single = omega (arith, length-delete_where (has_id id) db.streams, v.single);
    queue = ground (arith, delete_where-IsQueue (pending_of id) db.next_id db.outbox v.queue);
  }

  -- Every operation, whether it commits or raises, keeps the invariant.
  pub apply-IsValid : (op : Op) (db : Db) → IsValid db → IsValid (apply e op db)
  unfolding apply complete_outbox_item cancel_outbox_item retry_outbox_item block_outbox_item
      requeue_blocked_outbox delete_blocked_outbox delete_pending_outbox
  apply-IsValid (save s) db v = save_stream-IsValid s db v
  apply-IsValid (update p) db v = update_stream-IsValid p db v
  apply-IsValid (delete id) db v = delete_stream_by_id-IsValid id db v
  apply-IsValid (enqueue now ds) db v = enqueue_outbox-IsValid now ds db v
  apply-IsValid (complete id) db v = deletes (pending_row id) db v
  apply-IsValid (cancel id) db v = deletes (pending_row id) db v
  apply-IsValid (retry id attempts next reason) db v =
      updates (pending_row id) (retried attempts next reason) (λ r. refl) db v
  apply-IsValid (block id reason) db v =
      updates (pending_row id) (block_row reason) (λ r. refl) db v
  apply-IsValid (requeue now) db v = updates is_blocked (requeued now) (λ r. refl) db v
  apply-IsValid delete_blocked db v = deletes is_blocked db v
  apply-IsValid delete_pending db v = deletes is_pending db v

  pub run-IsValid : (ops : List Op) (db : Db) → IsValid db → IsValid (run e ops db)
  unfolding run
  run-IsValid [] db v = v
  run-IsValid (op ∷ ops) db v = run-IsValid ops (apply e op db) (apply-IsValid op db v)

  -- From a new database file, whatever operations follow in whatever order, at most one stream is
  -- stored, the queue holds at most `max_outbox_items` rows, and no id is given to two rows.
  pub run-init_db-IsValid : (ops : List Op) → IsValid (run e ops init_db)
  run-init_db-IsValid ops = run-IsValid ops init_db (record {
    single = omega arith;
    queue = record { bounded = omega arith; rising = omega arith };
  })
