-- ===== src/Events/Outbox/Batch.antt =====
-- app/events/outbox.py: a batch of deliveries, as a sequence of the operations of app/database.py, and
-- what it counts.
use ssf_transmitter.Prelude.{
  ℕ, suc, ◌+◌, ◌≤◌, ◌≡◌, ◌∙◌, sym, ap, inl, inr, refl, some, List, [], ◌∷◌, ◌++◌, arith, length,
  length-append, Option-cases, Bool-cases,
}
use ssf_transmitter.Environment.{Env}
use ssf_transmitter.Database.{OutboxItem, Db}
use ssf_transmitter.Database.Fifo.{length-get_due_outbox}
use ssf_transmitter.Database.Invariant.{IsValid, run-IsValid}
use ssf_transmitter.Database.Outbox.{get_due_outbox, get_due_outbox_item}
use ssf_transmitter.Database.Ops.{Op, apply, run, block, cancel, retry, complete}
use ssf_transmitter.Events.Pusher.{Request}
use ssf_transmitter.Events.Outbox.{
  World, Turn, Delivered, Outcome, delivered, refused, timed_out, raised, record_outcome,
  deliver_item, deliver_items, deliver_pending, paused_recheck_seconds,
}
use ssf_transmitter.Events.Outbox.Cases.{
  Delivers, unreadable, invalid, gone, changed, paused, pushed, deliver_item-Delivers,
}
use ssf_transmitter.Events.Outbox.Safety.{length-deliver_item}

run-append : (e : Env) (xs ys : List Op) (db : Db) → run e (xs ++ ys) db ≡ run e ys (run e xs db)
unfolding run
run-append e [] ys db = refl
run-append e (x ∷ xs) ys db = run-append e xs ys (apply e x db)

-- The tables that operations lead to from `db`.
abbrev Reaches : Env → Db → Db → Type 0
Reaches e db db' = (ops : List Op) × (db' ≡ run e ops db)

Reaches-trans : (e : Env) (a b c : Db) → Reaches e a b → Reaches e b c → Reaches e a c
Reaches-trans e a b c (xs, p) (ys, q) = (xs ++ ys, q ∙ ap (run e ys) p ∙ sym (run-append e xs ys a))

module _ (e : Env) where
  record_outcome-Reaches :
      (now : ℕ) (item : OutboxItem) (o : Outcome) (db : Db)
      → Reaches e db (record_outcome now item o db)
  unfolding record_outcome run
  record_outcome-Reaches now item delivered db = (complete item.id ∷ [], refl)
  record_outcome-Reaches now item refused db = (retry item.id _ _ _ ∷ [], refl)
  record_outcome-Reaches now item timed_out db = (retry item.id _ _ _ ∷ [], refl)
  record_outcome-Reaches now item raised db = (retry item.id _ _ _ ∷ [], refl)

  Delivers-Reaches :
      (w : World) (item : OutboxItem) (db : Db) {r : Db × List Request}
      → Delivers e w item db r
      → Reaches e db r.0
  unfolding run
  Delivers-Reaches w item db (unreadable x _) =
      (block item.id "payload_decryption_failed" ∷ [], refl)
  Delivers-Reaches w item db (invalid payload _ _) = (block item.id "payload_invalid" ∷ [], refl)
  Delivers-Reaches w item db (gone _) = (cancel item.id ∷ [], refl)
  Delivers-Reaches w item db (changed stream payload _ _ _) = (cancel item.id ∷ [], refl)
  Delivers-Reaches w item db (paused stream _ _) =
      (retry item.id item.attempts (w.now + paused_recheck_seconds) "stream_paused" ∷ [], refl)
  Delivers-Reaches w item db (pushed stream payload _ _ _ _) =
      Reaches-trans e db (run e w.during db) _ (w.during, refl)
        (record_outcome-Reaches w.now item _ _)

  deliver_item-Reaches :
      (w : World) (item : OutboxItem) (db : Db) → Reaches e db (deliver_item e w item db).0
  deliver_item-Reaches w item db = Delivers-Reaches w item db (deliver_item-Delivers e w item db)

module _ (e : Env) (turn : ℕ → Turn) where
  -- The step of the loop: it stops, skips an item that is no longer due, or delivers it.
  deliver_items_cases :
      (P : Delivered → Type 0) (k : ℕ) (item : OutboxItem) (items : List OutboxItem) (db : Db)
      → P (record { attempted = 0; sent = []; db = run e (turn k).before db })
      → P (deliver_items e turn (suc k) items (run e (turn k).before db))
      → ((current : OutboxItem)
          → let db' = run e (turn k).before db in
            let step = deliver_item e (turn k).world current db' in
            let rest = deliver_items e turn (suc k) items step.0 in
            get_due_outbox_item item.id (turn k).world.now db' ≡ some current
            → P (record {
              attempted = suc rest.attempted;
              sent = step.1 ++ rest.sent;
              db = rest.db;
            }))
      → P (deliver_items e turn k (item ∷ items) db)
  unfolding deliver_items
  deliver_items_cases P k item items db stops skips delivers = elim (Bool-cases (turn k).stop) [
    | inl stop ↦ rw (stop, deliver_items) stops
    | inr go ↦
        elim (Option-cases
          (get_due_outbox_item item.id (turn k).world.now (run e (turn k).before db))) [
            | inl none_due ↦ rw (go, deliver_items, none_due) skips
            | inr (current, due) ↦ rw (go, deliver_items, due) (delivers current due)
          ]
  ]

  deliver_items-Reaches :
      (k : ℕ) (items : List OutboxItem) (db : Db)
      → Reaches e db (deliver_items e turn k items db).db
  unfolding deliver_items
  deliver_items-Reaches k [] db = ([], unfold run in refl)
  deliver_items-Reaches k (item ∷ items) db =
      let before : Reaches e db (run e (turn k).before db) = ((turn k).before, refl) in
      deliver_items_cases (λ d. Reaches e db d.db) k item items db before
        (Reaches-trans e _ _ _ before (deliver_items-Reaches (suc k) items _))
        λ current _. Reaches-trans e _ _ _ before (
          Reaches-trans e _ _ _ (deliver_item-Reaches e (turn k).world current _)
            (deliver_items-Reaches (suc k) items _))

  deliver_items_counts :
      (k : ℕ) (items : List OutboxItem) (db : Db)
      → ((deliver_items e turn k items db).attempted ≤ length items)
        × (length (deliver_items e turn k items db).sent
            ≤ (deliver_items e turn k items db).attempted)
  unfolding deliver_items
  deliver_items_counts k [] db = (omega arith, omega arith)
  deliver_items_counts k (item ∷ items) db =
      deliver_items_cases (λ d. (d.attempted ≤ suc (length items)) × (length d.sent ≤ d.attempted))
        k item items db (omega arith, omega arith)
        (omega (arith, deliver_items_counts (suc k) items _))
        λ current _.
          let db' = run e (turn k).before db in
          let step = deliver_item e (turn k).world current db' in
          let rest = deliver_items_counts (suc k) items step.0 in
          (
            omega (arith, rest.0),
            omega (
              arith,
              rest.1,
              length-append step.1 (deliver_items e turn (suc k) items step.0).sent,
              length-deliver_item e (turn k).world current db',
            ),
          )

  -- A pass over the queue attempts at most 25 deliveries and sends at most one request for each.
  pub deliver_pending_counts :
      (now : ℕ) (db : Db)
      → ((deliver_pending e turn now db).attempted ≤ 25)
        × (length (deliver_pending e turn now db).sent ≤ (deliver_pending e turn now db).attempted)
  unfolding deliver_pending
  deliver_pending_counts now db =
      let counts = deliver_items_counts 0 (get_due_outbox 25 now db) db in
      (omega (arith, counts.0, length-get_due_outbox 25 now db), counts.1)

  -- A pass keeps the invariant of the tables, whatever other tasks do meanwhile.
  pub deliver_pending-IsValid :
      (now : ℕ) (db : Db) → IsValid db → IsValid (deliver_pending e turn now db).db
  unfolding deliver_pending
  deliver_pending-IsValid now db v =
      let (ops, reached) = deliver_items-Reaches 0 (get_due_outbox 25 now db) db in
      rw reached (run-IsValid e ops db v)
