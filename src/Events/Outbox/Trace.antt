-- ===== src/Events/Outbox/Trace.antt =====
-- app/events/outbox.py: the requests of a pass and of the loop, each in the tables and the network that
-- its delivery meets.
use ssf_transmitter.Prelude.{
  ℕ, suc, ◌≡◌, inl, inr, none, some, List, [], ◌∷◌, false, Option-cases, Bool-cases,
}
use ssf_transmitter.Environment.{Env}
use ssf_transmitter.Database.{OutboxItem, Db}
use ssf_transmitter.Database.Outbox.{get_due_outbox_item}
use ssf_transmitter.Database.Ops.{run}
use ssf_transmitter.Events.Pusher.{Request}
use ssf_transmitter.Events.Outbox.{Turn, deliver_item, deliver_items}
use ssf_transmitter.Events.Outbox.Safety.{IsEntitled, deliver_item-IsEntitled}

module _ (e : Env) (turn : ℕ → Turn) where
  -- The tables after a turn of the batch, by what the code does in it.
  abbrev pub after_item : ℕ → OutboxItem → Db → Db
  after_item k item db =
      let db' = run e (turn k).before db in
      elim (get_due_outbox_item item.id (turn k).world.now db') [
        | none ↦ db'
        | some current ↦ (deliver_item e (turn k).world current db').0
      ]

  -- The k-th turn meets its item while it is still due, and the request is one that the delivery is
  -- entitled to by the tables of that moment.
  abbrev pub IsSentFor : ℕ → OutboxItem → Db → Request → Type 0
  IsSentFor k item db q =
      let db' = run e (turn k).before db in
      ((turn k).stop ≡ false)
      × ((current : OutboxItem) × (get_due_outbox_item item.id (turn k).world.now db'
            ≡ some current)
          × IsEntitled e (turn k).world current db' q)

  -- The requests are those of the items in their order, at most one for each: each turn that is not
  -- stopped sends nothing or one request, and the next meets the tables that it leaves.
  pub data IsTrace : ℕ → List OutboxItem → Db → List Request → Type 0 where
    ends : {k : ℕ} {items : List OutboxItem} {db : Db} → IsTrace k items db []
    skips :
        {k : ℕ} {item : OutboxItem} {items : List OutboxItem} {db : Db} {sent : List Request}
        → IsTrace (suc k) items (after_item k item db) sent
        → IsTrace k (item ∷ items) db sent
    sends :
        {k : ℕ} {item : OutboxItem} {items : List OutboxItem} {db : Db} {q : Request}
        {sent : List Request}
        → IsSentFor k item db q
        → IsTrace (suc k) items (after_item k item db) sent
        → IsTrace k (item ∷ items) db (q ∷ sent)

  pub deliver_items-IsTrace :
      (k : ℕ) (items : List OutboxItem) (db : Db)
      → IsTrace k items db (deliver_items e turn k items db).sent
  unfolding deliver_items
  deliver_items-IsTrace k [] db = ends
  deliver_items-IsTrace k (item ∷ items) db =
      let db' = run e (turn k).before db in
      let w = (turn k).world in
      elim (Bool-cases (turn k).stop) [
        | inl stop ↦ rw (stop, deliver_items) ends
        | inr go ↦ elim (Option-cases (get_due_outbox_item item.id w.now db')) [
          | inl none_due ↦
              rw (go, deliver_items, none_due)
                (skips (rw (after_item, none_due) (deliver_items-IsTrace (suc k) items db')))
          | inr (current, due) ↦
              let next = (deliver_item e w current db').0 in
              let rest = deliver_items-IsTrace (suc k) items next in
              elim (deliver_item-IsEntitled e w current db') [
                | inl nothing ↦
                    rw (go, deliver_items, due, nothing) (skips (rw (after_item, due) rest))
                | inr (q, one, entitled) ↦
                    let for_item : IsSentFor k item db q = (go, (current, due, entitled)) in
                    let after : IsTrace (suc k) items (after_item k item db) _ =
                      rw (after_item, due) rest in
                    rw (go, deliver_items, due, one) (sends for_item after)
              ]
        ]
      ]
