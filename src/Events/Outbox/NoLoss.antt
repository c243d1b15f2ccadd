-- ===== src/Events/Outbox/NoLoss.antt =====
-- A queued SET is not lost: what a delivery may take out of the queue.
use ssf_transmitter.Prelude.{
  ℕ, ◌+◌, String, ◌≡◌, ◌⊎◌, inl, inr, refl, Bool, true, false, none, some, List, [], ◌∷◌, ◌++◌,
  arith, All, any, delete_where, update_where, nat_eq,
}
use ssf_transmitter.Result.{ok}
use ssf_transmitter.Value.{Fields}
use ssf_transmitter.Environment.{Env}
use ssf_transmitter.Database.{Stream, OutboxRow, OutboxItem, Db, is_blocked}
use ssf_transmitter.Database.Cases.{enqueue_cases}
use ssf_transmitter.Database.Streams.{get_stream_by_id}
use ssf_transmitter.Database.Outbox.{
  insert_rows, retry_outbox_item, block_outbox_item, requeue_blocked_outbox, delete_blocked_outbox,
  pending_row, row_is, retried, block_row, requeued, decrypt_outbox_payload,
}
use ssf_transmitter.Database.Ops.{Op, enqueue, requeue, delete_blocked, apply, run}
use ssf_transmitter.Events.Pusher.{Request, request_of}
use ssf_transmitter.Events.Pusher.Laws.{IsAccepted, push_signed_set-true_iff}
use ssf_transmitter.Events.Outbox.{
  World, Outcome, delivered, refused, timed_out, raised, attempt, record_outcome, deliver_item,
  payload_matches_stream, token_of, paused_recheck_seconds,
}
use ssf_transmitter.Events.Outbox.Cases.{
  Delivers, unreadable, invalid, gone, changed, paused, pushed, deliver_item-Delivers,
}

-- The operations that do not wait for the lock that a delivery holds.
pub data IsUnlocked : Op → Type 0 where
  enqueues : (now : ℕ) (ds : List (Stream × Fields)) → IsUnlocked (enqueue now ds)
  requeues : (now : ℕ) → IsUnlocked (requeue now)
  deletes_blocked : IsUnlocked delete_blocked

-- The queue has a pending row, or any row, of that id.
abbrev pub IsQueued : ℕ → Db → Type 0
IsQueued id db = any (pending_row id) db.outbox ≡ true

abbrev pub IsKept : ℕ → Db → Type 0
IsKept id db = any (row_is id) db.outbox ≡ true

any-append :
    (p : OutboxRow → Bool) (xs ys : List OutboxRow) → any p xs ≡ true → any p (xs ++ ys) ≡ true
any-append p [] ys h = cc
any-append p (x ∷ xs) ys h = ground (arith, any-append p xs ys)

-- An update that keeps the test true, and a deletion of other rows, keep a row.
any-update_where :
    (p q : OutboxRow → Bool) (f : OutboxRow → OutboxRow) (xs : List OutboxRow)
    → ((r : OutboxRow) → p r ≡ true → q (f r) ≡ true)
    → ((r : OutboxRow) → p r ≡ true → q r ≡ true)
    → (t : OutboxRow → Bool) → any p xs ≡ true
    → any q (update_where t f xs) ≡ true
any-update_where p q f [] keeps same t h = cc
any-update_where p q f (x ∷ xs) keeps same t h =
    ground (arith, keeps x, same x, any-update_where p q f xs keeps same t)

any-delete_where :
    (p t : OutboxRow → Bool) (xs : List OutboxRow)
    → ((r : OutboxRow) → p r ≡ true → t r ≡ false)
    → any p xs ≡ true
    → any p (delete_where t xs) ≡ true
any-delete_where p t [] other h = cc
any-delete_where p t (x ∷ xs) other h = ground (arith, other x, any-delete_where p t xs other)

any-imp :
    (p q : OutboxRow → Bool) (xs : List OutboxRow)
    → ((r : OutboxRow) → p r ≡ true → q r ≡ true)
    → any p xs ≡ true
    → any q xs ≡ true
any-imp p q [] h k = cc
any-imp p q (x ∷ xs) h k = ground (arith, h x, any-imp p q xs h)

module _ (e : Env) (id : ℕ) where
  insert_rows-IsQueued :
      (now : ℕ) (ds : List (Stream × Fields)) (db : Db)
      → IsQueued id db
      → IsQueued id (insert_rows e now ds db)
  unfolding insert_rows
  insert_rows-IsQueued now [] db h = h
  insert_rows-IsQueued now (d ∷ ds) db h =
      insert_rows-IsQueued now ds _ (any-append (pending_row id) db.outbox _ h)

  pub unlocked-IsQueued :
      {op : Op} → IsUnlocked op → (db : Db) → IsQueued id db → IsQueued id (apply e op db)
  unfolding apply requeue_blocked_outbox delete_blocked_outbox
  unlocked-IsQueued (enqueues now ds) db h =
      enqueue_cases (IsQueued id) e now ds db h λ _ _. insert_rows-IsQueued now ds db h
  unlocked-IsQueued (requeues now) db h =
      any-update_where (pending_row id) (pending_row id) (requeued now) db.outbox
        (λ r k. ground arith) (λ r k. k) is_blocked h
  unlocked-IsQueued deletes_blocked db h =
      any-delete_where (pending_row id) is_blocked db.outbox (λ r k. ground arith) h

  run-IsQueued :
      (ops : List Op) (db : Db) → All IsUnlocked ops → IsQueued id db → IsQueued id (run e ops db)
  unfolding run
  run-IsQueued [] db u h = h
  run-IsQueued (op ∷ ops) db u h = run-IsQueued ops (apply e op db) u.1 (unlocked-IsQueued u.0 db h)

-- The two reasons for which a delivery may take a row out of the queue.
pub record IsDelivered (e : Env) (w : World) (item : OutboxItem) (db : Db) : Type 0 where
  pub stream : Stream
  pub payload : Fields
  pub stored : get_stream_by_id e item.stream_id db ≡ some stream
  pub queued : decrypt_outbox_payload e item ≡ ok payload
  pub accepted : IsAccepted e w.net (request_of stream (token_of payload))

abbrev pub IsStale : Env → OutboxItem → Db → Type 0
IsStale e item db =
    (get_stream_by_id e item.stream_id db ≡ none)
    ⊎ ((stream : Stream) × (payload : Fields) × (get_stream_by_id e item.stream_id db ≡ some stream)
        × (decrypt_outbox_payload e item ≡ ok payload)
        × (payload_matches_stream payload stream ≡ false))

pending_row-row_is : (id : ℕ) (r : OutboxRow) → pending_row id r ≡ true → row_is id r ≡ true
pending_row-row_is id r h = ground arith

IsQueued-IsKept : (id : ℕ) (db : Db) → IsQueued id db → IsKept id db
IsQueued-IsKept id db = any-imp (pending_row id) (row_is id) db.outbox (pending_row-row_is id)

retry_outbox_item-IsQueued :
    (id attempts next : ℕ) (reason : String) (db : Db)
    → IsQueued id db
    → IsQueued id (retry_outbox_item id attempts next reason db)
unfolding retry_outbox_item
retry_outbox_item-IsQueued id attempts next reason db =
    any-update_where (pending_row id) (pending_row id) (retried attempts next reason) db.outbox
      (λ r k. k) (λ r k. k) (pending_row id)

block_outbox_item-IsKept :
    (id : ℕ) (reason : String) (db : Db)
    → IsQueued id db
    → IsKept id (block_outbox_item id reason db)
unfolding block_outbox_item
block_outbox_item-IsKept id reason db =
    any-update_where (pending_row id) (row_is id) (block_row reason) db.outbox
      (pending_row-row_is id) (pending_row-row_is id) (pending_row id)

module _ (e : Env) (w : World) where
  attempt-delivered :
      (stream : Stream) (token : String)
      → (attempt e w stream token).0 ≡ delivered
      → IsAccepted e w.net (request_of stream token)
  unfolding attempt
  attempt-delivered stream token h =
      ((push_signed_set-true_iff e w.net stream token).0 (ground arith)).1

  record_outcome-IsQueued :
      (item : OutboxItem) (o : Outcome) (db : Db)
      → IsQueued item.id db
      → IsQueued item.id (record_outcome w.now item o db) ⊎ (o ≡ delivered)
  unfolding record_outcome
  record_outcome-IsQueued item delivered db h = inr refl
  record_outcome-IsQueued item refused db h = inl (retry_outbox_item-IsQueued item.id _ _ _ db h)
  record_outcome-IsQueued item timed_out db h = inl (retry_outbox_item-IsQueued item.id _ _ _ db h)
  record_outcome-IsQueued item raised db h = inl (retry_outbox_item-IsQueued item.id _ _ _ db h)

  Delivers-IsKept :
      (item : OutboxItem) (db : Db) {r : Db × List Request}
      → Delivers e w item db r
      → All IsUnlocked w.during
      → IsQueued item.id db
      → IsKept item.id r.0 ⊎ IsDelivered e w item db ⊎ IsStale e item db
  Delivers-IsKept item db (unreadable x _) u q = inl (block_outbox_item-IsKept item.id _ db q)
  Delivers-IsKept item db (invalid payload _ _) u q = inl (block_outbox_item-IsKept item.id _ db q)
  Delivers-IsKept item db (gone none_found) u q = inr (inr (inl none_found))
  Delivers-IsKept item db (changed stream payload opened stored differs) u q =
      inr (inr (inr (stream, payload, stored, opened, differs)))
  Delivers-IsKept item db (paused stream _ _) u q = inl (
      IsQueued-IsKept item.id
        (retry_outbox_item item.id item.attempts (w.now + paused_recheck_seconds) "stream_paused"
          db)
        (retry_outbox_item-IsQueued item.id _ _ _ db q))
  Delivers-IsKept item db (pushed stream payload opened stored same on) u q =
      elim (record_outcome-IsQueued item (attempt e w stream (token_of payload)).0
        (run e w.during db) (run-IsQueued e item.id w.during db u q)) [
          | inl kept ↦ inl (
              IsQueued-IsKept item.id
                (record_outcome w.now item (attempt e w stream (token_of payload)).0
                  (run e w.during db))
                kept)
          | inr success ↦ inr (
              inl (record {
                stream = stream;
                payload = payload;
                stored = stored;
                queued = opened;
                accepted = attempt-delivered stream (token_of payload) success;
              }))
        ]

  -- A pending row is still stored after its delivery, unless the receiver has answered its request
  -- with a success or its stream has been removed or changed. Timeouts, errors, crashes of the push
  -- and what the operations that need no lock do meanwhile lose no SET.
  pub deliver_item_keeps :
      (item : OutboxItem) (db : Db)
      → All IsUnlocked w.during
      → IsQueued item.id db
      → IsKept item.id (deliver_item e w item db).0 ⊎ IsDelivered e w item db ⊎ IsStale e item db
  deliver_item_keeps item db = Delivers-IsKept item db (deliver_item-Delivers e w item db)
