-- ===== src/Database/Enqueue.antt =====
-- `enqueue_outbox` adds a whole batch or nothing, and only for streams that are stored as the caller
-- read them.
use mathlib.Core.List.{append_assoc, append-nil}
use ssf_transmitter.Prelude.{
  ℕ, suc, ◌+◌, ◌≤◌, ◌≡◌, ◌↔◌, refl, sym, ◌∙◌, ap, true, some, List, [], ◌∷◌, ◌++◌, arith, All,
  length, string_eq, strings_eq_iff, eq_iff, Option-cases, inl, inr,
}
use ssf_transmitter.Result.{ok}
use ssf_transmitter.Value.{Fields}
use ssf_transmitter.Environment.{Env}
use ssf_transmitter.Database.{Stream, OutboxRow, Db, max_outbox_items, stream_eq}
use ssf_transmitter.Database.Streams.{get_stream_by_id}
use ssf_transmitter.Database.Outbox.{check_streams, outbox_row, insert_rows, enqueue_outbox}

pub stream_eq_sound : (a b : Stream) → stream_eq a b ≡ true → a ≡ b
unfolding stream_eq
stream_eq_sound a b h = ground (
  arith,
  eq_iff a.stream_id b.stream_id,
  eq_iff a.aud b.aud,
  eq_iff a.endpoint_url b.endpoint_url,
  eq_iff a.endpoint_token b.endpoint_token,
  strings_eq_iff a.events_requested b.events_requested,
  eq_iff a.status b.status,
)

pub stream_eq_refl : (a : Stream) → stream_eq a a ≡ true
unfolding stream_eq
stream_eq_refl a = ground (
  arith,
  eq_iff a.stream_id a.stream_id,
  eq_iff a.aud a.aud,
  eq_iff a.endpoint_url a.endpoint_url,
  eq_iff a.endpoint_token a.endpoint_token,
  strings_eq_iff a.events_requested a.events_requested,
  eq_iff a.status a.status,
)

-- The stream of a delivery is stored as it was read, and enabled.
abbrev pub IsStored : Env → Db → Stream × Fields → Type 0
IsStored e db d = (get_stream_by_id e d.0.stream_id db ≡ some d.0) × (d.0.status ≡ "enabled")

-- The rows of a batch whose first id is `id`.
abbrev pub rows_of : Env → ℕ → ℕ → List (Stream × Fields) → List OutboxRow
rows_of e now id [] = []
rows_of e now id (d ∷ ds) = outbox_row e now id d ∷ rows_of e now (suc id) ds

module _ (e : Env) where
  check_streams_complete :
      (ds : List (Stream × Fields)) (db : Db)
      → All (IsStored e db) ds
      → check_streams e ds db ≡ ok tt
  unfolding check_streams
  check_streams_complete [] db h = refl
  check_streams_complete ((s, p) ∷ ds) db h =
      rw (h.0.0, check_streams)
        (ground (
          arith,
          stream_eq_refl s,
          eq_iff s.status "enabled",
          h.0.1,
          check_streams_complete ds db h.1,
        ))

  check_streams_sound :
      (ds : List (Stream × Fields)) (db : Db)
      → check_streams e ds db ≡ ok tt
      → All (IsStored e db) ds
  unfolding check_streams
  check_streams_sound [] db h = tt
  check_streams_sound ((s, p) ∷ ds) db h = elim (Option-cases (get_stream_by_id e s.stream_id db)) [
    | inl gone ↦ absurd (ground arith)
    | inr (current, stored) ↦
        let same : current ≡ s = stream_eq_sound current s (ground arith) in
        (
          (
            stored ∙ ap some same,
            ap (λ (t : Stream). t.status) (sym same)
                ∙ (eq_iff current.status "enabled").0 (ground arith),
          ),
          check_streams_sound ds db (ground arith),
        )
  ]

  insert_rows-eq :
      (now : ℕ) (ds : List (Stream × Fields)) (db : Db)
      → insert_rows e now ds db ≡ record db {
        outbox = db.outbox ++ rows_of e now db.next_id ds;
        next_id = db.next_id + length ds;
      }
  unfolding insert_rows
  insert_rows-eq now [] db = ground (arith, append-nil db.outbox)
  insert_rows-eq now (d ∷ ds) db = ground (
    arith,
    insert_rows-eq now ds (record db {
      outbox = db.outbox ++ outbox_row e now db.next_id d ∷ [];
      next_id = suc db.next_id;
    }),
    append_assoc db.outbox (outbox_row e now db.next_id d ∷ []) (rows_of e now (suc db.next_id) ds),
  )

  -- A batch is queued exactly when each of its streams is stored as it was read and enabled, and the
  -- queue has room for all of it; then its rows stand behind the others in the order of the batch,
  -- with the next ids, and nothing else has changed.
  pub enqueue_outbox_iff :
      (now : ℕ) (d : Stream × Fields) (ds : List (Stream × Fields)) (db : Db)
      → (enqueue_outbox e now (d ∷ ds) db
          ≡ ok (
            length (d ∷ ds),
            record db {
              outbox = db.outbox ++ rows_of e now db.next_id (d ∷ ds);
              next_id = db.next_id + length (d ∷ ds);
            },
          ))
        ↔ (All (IsStored e db) (d ∷ ds) × (length db.outbox + length (d ∷ ds) ≤ max_outbox_items))
  unfolding enqueue_outbox
  enqueue_outbox_iff now d ds db = (
    (λ h. (check_streams_sound (d ∷ ds) db (ground arith), ground arith)),
    (λ h.
        ground
          (arith, check_streams_complete (d ∷ ds) db h.0, insert_rows-eq now (d ∷ ds) db, h.1)),
  )

  -- The tables with the rows of a batch behind the others.
  abbrev pub with_rows : ℕ → List (Stream × Fields) → Db → Db
  with_rows now ds db = record db {
    outbox = db.outbox ++ rows_of e now db.next_id ds;
    next_id = db.next_id + length ds;
  }

  -- What a batch that is queued, or has nothing to queue, leaves.
  pub enqueue_outbox_sound :
      (now n : ℕ) (ds : List (Stream × Fields)) (db db' : Db)
      → enqueue_outbox e now ds db ≡ ok (n, db')
      → (n ≡ length ds) × All (IsStored e db) ds × (db' ≡ with_rows now ds db)
  unfolding enqueue_outbox
  enqueue_outbox_sound now n [] db db' h = (ground arith, tt, ground (arith, append-nil db.outbox))
  enqueue_outbox_sound now n (d ∷ ds) db db' h = (
    ground arith,
    check_streams_sound (d ∷ ds) db (ground arith),
    ground (arith, insert_rows-eq now (d ∷ ds) db),
  )
