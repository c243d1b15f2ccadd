-- ===== src/Events/Outbox/Loop.antt =====
-- app/events/outbox.py: `delivery_loop`, the passes that the delivery worker makes until it is
-- stopped, and what holds of all of them.
use ssf_transmitter.Prelude.{
  ℕ, ◌+◌, ◌*◌, ◌≤◌, ◌≡◌, Bool, true, false, refl, sym, subst, List, [], ◌∷◌, ◌++◌, arith, length,
  length-append, Bool-cases, inl, inr,
}
use ssf_transmitter.Environment.{Env}
use ssf_transmitter.Database.{Db}
use ssf_transmitter.Database.Invariant.{IsValid, run-IsValid}
use ssf_transmitter.Database.Outbox.{get_due_outbox}
use ssf_transmitter.Database.Ops.{Op, run}
use ssf_transmitter.Events.Pusher.{Request}
use ssf_transmitter.Events.Outbox.{Turn, Delivered, deliver_pending}
use ssf_transmitter.Events.Outbox.Batch.{deliver_pending_counts, deliver_pending-IsValid}
use ssf_transmitter.Events.Outbox.Trace.{IsTrace, deliver_items-IsTrace}

-- A round of the loop: whether it is stopped by then, the time, what each delivery of the pass meets,
-- and what other tasks write until the next round.
pub record Round : Type 0 where
  pub stop : Bool
  pub now : ℕ
  pub turn : ℕ → Turn
  pub between : List Op

unfoldable pub delivery_loop : Env → List Round → Db → Delivered
unfolding deliver_pending
delivery_loop e [] db = record { attempted = 0; sent = []; db = db }
delivery_loop e (r ∷ rounds) db = elim r.stop [
  | true ↦ record { attempted = 0; sent = []; db = db }
  | false ↦
      let pass = deliver_pending e r.turn r.now db in
      let rest = delivery_loop e rounds (run e r.between pass.db) in
      record {
        attempted = pass.attempted + rest.attempted;
        sent = pass.sent ++ rest.sent;
        db = rest.db;
      }
]

module _ (e : Env) where
  -- The requests of the rounds in their order: those of a round are a trace of its pass over the tables
  -- that it finds, and the next round finds the tables that the pass and the other tasks leave.
  pub data IsRun : List Round → Db → List Request → Type 0 where
    ends : {rounds : List Round} {db : Db} → IsRun rounds db []
    passes :
        {r : Round} {rounds : List Round} {db : Db} {sent rest : List Request}
        → r.stop ≡ false
        → IsTrace e r.turn 0 (get_due_outbox 25 r.now db) db sent
        → IsRun rounds (run e r.between (deliver_pending e r.turn r.now db).db) rest
        → IsRun (r ∷ rounds) db (sent ++ rest)

  deliver_pending-IsTrace :
      (r : Round) (db : Db)
      → IsTrace e r.turn 0 (get_due_outbox 25 r.now db) db (deliver_pending e r.turn r.now db).sent
  unfolding deliver_pending
  deliver_pending-IsTrace r db = deliver_items-IsTrace e r.turn 0 (get_due_outbox 25 r.now db) db

  -- What a run of the loop keeps, from the tables that it finds.
  abbrev pub IsSafe : List Round → Db → Delivered → Type 0
  IsSafe rounds db d =
      IsValid d.db
      × (d.attempted ≤ 25 * length rounds)
      × (length d.sent ≤ d.attempted)
      × IsRun rounds db d.sent

  -- However many rounds the worker makes until it is stopped, and whatever other tasks write
  -- meanwhile, the invariant of the tables is kept, at most 25 deliveries are attempted in a round and
  -- at most one request is sent for each, and the requests come in the order of the items: each is one
  -- that its delivery is entitled to by the tables and the network that it meets, where the item was
  -- due when its round began and still is.
  pub delivery_loop-IsSafe :
      (rounds : List Round) (db : Db) → IsValid db → IsSafe rounds db (delivery_loop e rounds db)
  unfolding delivery_loop
  delivery_loop-IsSafe [] db valid = (valid, omega arith, omega arith, ends)
  delivery_loop-IsSafe (r ∷ rounds) db valid = elim (Bool-cases r.stop) [
    | inl stopped ↦ rw (stopped, delivery_loop) (valid, omega arith, omega arith, ends)
    | inr goes_on ↦
        let pass = deliver_pending e r.turn r.now db in
        let next = run e r.between pass.db in
        let (at_most, one_each) = deliver_pending_counts e r.turn r.now db in
        let kept =
          run-IsValid e r.between pass.db (deliver_pending-IsValid e r.turn r.now db valid) in
        let (valid', at_most', one_each', rest) = delivery_loop-IsSafe rounds next kept in
        let last = delivery_loop e rounds next in
        let same : delivery_loop e (r ∷ rounds) db ≡ record {
          attempted = pass.attempted + last.attempted;
          sent = pass.sent ++ last.sent;
          db = last.db;
        } =
          rw (goes_on, delivery_loop) refl in
        subst (λ d. IsSafe (r ∷ rounds) db d) (sym same)
          (
            valid',
            omega (arith, at_most, at_most'),
            omega (arith, one_each, one_each', length-append pass.sent last.sent),
            passes goes_on (deliver_pending-IsTrace r db) rest,
          )
  ]
