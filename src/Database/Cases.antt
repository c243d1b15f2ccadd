-- ===== src/Database/Cases.antt =====
-- What a transaction of app/database.py leaves behind: the rules by which a property of the tables
-- is shown after it, whether it commits or raises.
use ssf_transmitter.Prelude.{
  ℕ, ◌+◌, ◌≤◌, String, ◌≡◌, refl, Bool, true, false, List, length, arith, Option-cases, inl, inr,
  some,
}
use ssf_transmitter.Result.{Error, Result, ok, err, value_error, ◌>>=◌, ◌>>◌, raise_if}
use ssf_transmitter.Value.{Fields}
use ssf_transmitter.Environment.{Env}
use ssf_transmitter.Database.{Stream, StreamRow, Db, max_outbox_items, row_to_stream}
use ssf_transmitter.Database.Streams.{
  Payload, update_stream, update_row, patched, stored_token, write_update, head?, sort_desc,
  list_or_raise, or_events, enables_without_token,
}
use ssf_transmitter.Database.Outbox.{check_streams, insert_rows, enqueue_outbox}
use ssf_transmitter.Database.Ops.{committed}

module _ {ℓ κ} {A : Type κ} {B : Type 0} (P : Db → Type ℓ) (db : Db) where
  bind_cases :
      (r : Result A) (k : A → Result (B × Db))
      → P db
      → ((a : A) → r ≡ ok a → P (committed db (k a)))
      → P (committed db (r >>= k))
  bind_cases (ok a) k stays goes = goes a refl
  bind_cases (err x) k stays goes = stays

module _ {ℓ} {B : Type 0} (P : Db → Type ℓ) (db : Db) where
  raise_cases :
      (b : Bool) (x : Error) (m : Result (B × Db))
      → P db
      → (b ≡ false → P (committed db m))
      → P (committed db (raise_if b x >> m))
  raise_cases true x m stays goes = stays
  raise_cases false x m stays goes = goes refl

module _ {ℓ} (P : Db → Type ℓ) (e : Env) where
  pub enqueue_cases :
      (now : ℕ) (ds : List (Stream × Fields)) (db : Db)
      → P db
      → (check_streams e ds db ≡ ok tt
          → length db.outbox + length ds ≤ max_outbox_items
          → P (insert_rows e now ds db))
      → P (committed db (enqueue_outbox e now ds db))
  unfolding enqueue_outbox
  enqueue_cases now ds db stays inserts = ground arith

  pub update_row_cases :
      (p : Payload) (row : StreamRow) (db : Db)
      → P db
      → ((events : List String)
          → list_or_raise (or_events p.events_requested row.events_requested) ≡ ok events
          → enables_without_token p row (row_to_stream e row) ≡ false
          → P (
              write_update
                (row_to_stream e row)
                (patched p (row_to_stream e row) events)
                (stored_token e p row)
                db))
      → P (committed db (update_row e p row db))
  unfolding update_row row_to_stream
  update_row_cases p row db stays writes =
      bind_cases P db (list_or_raise (or_events p.events_requested row.events_requested)) _ stays
        λ events chosen.
          raise_cases P db (enables_without_token p row (row_to_stream e row))
            (value_error
              "Receiver endpoint token cannot be decrypted — supply delivery.endpoint_url_token before enabling")
            (ok (
              some (patched p (row_to_stream e row) events),
              write_update (row_to_stream e row) (patched p (row_to_stream e row) events)
                  (stored_token e p row) db,
            ))
            stays (writes events chosen)

  pub update_cases :
      (p : Payload) (db : Db)
      → P db
      → ((row : StreamRow)
          → head? (sort_desc db.streams) ≡ some row
          → P (committed db (update_row e p row db)))
      → P (committed db (update_stream e p db))
  unfolding update_stream
  update_cases p db stays found = elim (Option-cases (head? (sort_desc db.streams))) [
    | inl none_found ↦ rw (none_found, update_stream) stays
    | inr (row, one_found) ↦ rw (one_found, update_stream) (found row one_found)
  ]
