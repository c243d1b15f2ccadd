-- ===== src/Database/Update.antt =====
-- What the writes to `streams` do to the stream that is read back and to the queued rows: a SET that
-- was queued for a configuration does not outlive it.
use ssf_transmitter.Prelude.{
  String, ◌≡◌, ◌≢◌, ◌⊎◌, ◌↔◌, not, ◌&&◌, none, inl, inr, refl, Bool, true, false, some, List, [],
  ◌∷◌, arith, Bool-cases, delete_where, update_where, count_where, where_, first_where, ltb, eq_iff,
  ◌==◌, string_eq, strings_eq_iff, strings_eq_instance,
}
use ssf_transmitter.Environment.{Env}
use ssf_transmitter.Crypto.Laws.{FernetRoundTrip, decrypt_token-encrypt_token}
use ssf_transmitter.Database.{
  Stream, OutboxRow, Db, is_pending, is_blocked, runtime_token, row_to_stream,
}
use ssf_transmitter.Database.Streams.{
  stream_row, save_stream, get_first_stream, get_stream_by_id, list_streams, sort_desc, insert_desc,
  pending_of, due_now, outbox_after_update, has_id, delete_stream_by_id, delivery_changed,
}

-- The part of a stream that a queued payload repeats.
pub record IsSameDelivery (a b : Stream) : Type 0 where
  pub aud : a.aud ≡ b.aud
  pub endpoint_url : a.endpoint_url ≡ b.endpoint_url
  pub endpoint_token : a.endpoint_token ≡ b.endpoint_token
  pub events_requested : a.events_requested ≡ b.events_requested

where_-delete_where_pending :
    (rows : List OutboxRow)
    → (where_ is_pending (delete_where is_pending rows) ≡ [])
      × (where_ is_blocked (delete_where is_pending rows) ≡ where_ is_blocked rows)
where_-delete_where_pending [] = (refl, refl)
where_-delete_where_pending (r ∷ rows) = ground (arith, where_-delete_where_pending rows)

module _ {ℓ} {A : Type ℓ} (p : A → Bool) where
  delete_where-idempotent : (xs : List A) → delete_where p (delete_where p xs) ≡ delete_where p xs
  delete_where-idempotent [] = refl
  delete_where-idempotent (x ∷ xs) = ground (arith, delete_where-idempotent xs)

  where_-delete_where : (xs : List A) → where_ p (delete_where p xs) ≡ []
  where_-delete_where [] = refl
  where_-delete_where (x ∷ xs) = ground (arith, where_-delete_where xs)

  first_where-delete_where : (xs : List A) → first_where p (delete_where p xs) ≡ none
  first_where-delete_where [] = refl
  first_where-delete_where (x ∷ xs) = ground (arith, first_where-delete_where xs)

  -- Either some element passes the test, or none does and there is nothing to delete.
  count_where_cases :
      (xs : List A)
      → ((ltb 0 (count_where p xs) ≡ true) × ((x : A) × (first_where p xs ≡ some x)))
        ⊎ ((ltb 0 (count_where p xs) ≡ false)
            × (first_where p xs ≡ none)
            × (delete_where p xs ≡ xs))
  count_where_cases [] = inr (refl, refl, refl)
  count_where_cases (x ∷ xs) = elim (Bool-cases (p x)) [
    | inl e ↦ inl (ground arith, (x, ground arith))
    | inr e ↦ elim (count_where_cases xs) [
      | inl (more, (y, found)) ↦ inl (ground arith, (y, ground arith))
      | inr (no_more, not_found, same) ↦ inr (ground arith, ground arith, rw (e, same) refl)
    ]
  ]

  delete_where-update_where :
      (f : A → A)
      → ((x : A) → p (f x) ≡ p x)
      → (xs : List A) → delete_where p (update_where p f xs) ≡ delete_where p xs
  delete_where-update_where f keeps [] = refl
  delete_where-update_where f keeps (x ∷ xs) =
      ground (arith, keeps x, delete_where-update_where f keeps xs)

module _ (e : Env) (fernet : FernetRoundTrip e) where
  -- A stream that is saved is the one that is read back, by position and by id, whatever was stored
  -- before it. No pending row of an earlier stream survives, and every blocked row does.
  pub save_stream_lem :
      (s : Stream) (db : Db)
      → (get_first_stream e (save_stream e s db) ≡ some s)
        × (get_stream_by_id e s.stream_id (save_stream e s db) ≡ some s)
        × (where_ is_pending (save_stream e s db).outbox ≡ [])
        × (where_ is_blocked (save_stream e s db).outbox ≡ where_ is_blocked db.outbox)
  unfolding save_stream get_first_stream get_stream_by_id list_streams row_to_stream runtime_token
      stream_row sort_desc insert_desc
  save_stream_lem s db = ground (
    arith,
    decrypt_token-encrypt_token e fernet s.endpoint_token,
    where_-delete_where_pending db.outbox,
    eq_iff s.stream_id s.stream_id,
  )

delivery_changed_iff :
    (old new : Stream) → (delivery_changed old new ≡ false) ↔ IsSameDelivery new old
delivery_changed_iff old new = (
  λ h. record {
    aud = ground (arith, eq_iff new.aud old.aud);
    endpoint_url = ground (arith, eq_iff new.endpoint_url old.endpoint_url);
    endpoint_token = ground (arith, eq_iff new.endpoint_token old.endpoint_token);
    events_requested = ground (arith, strings_eq_iff new.events_requested old.events_requested);
  },
  λ same. ground (
    arith,
    eq_iff new.aud old.aud,
    eq_iff new.endpoint_url old.endpoint_url,
    eq_iff new.endpoint_token old.endpoint_token,
    strings_eq_iff new.events_requested old.events_requested,
    same.aud,
    same.endpoint_url,
    same.endpoint_token,
    same.events_requested,
  ),
)

pending_of-due_now : (id : String) (r : OutboxRow) → pending_of id (due_now r) ≡ pending_of id r
pending_of-due_now id r = refl

-- An update touches no row but the pending rows of its stream. Where it changes the audience, the
-- endpoint, the token or the requested events, none of these is left; otherwise each of them is
-- kept, and made due where the update enables the stream.
pub outbox_after_update_lem :
    (old new : Stream) (rows : List OutboxRow)
    → (delete_where (pending_of old.stream_id) (outbox_after_update old new rows)
        ≡ delete_where (pending_of old.stream_id) rows)
      × ((¬ IsSameDelivery new old
            × (where_ (pending_of old.stream_id) (outbox_after_update old new rows) ≡ []))
          ⊎ (IsSameDelivery new old
              × (new.status ≡ "enabled")
              × (old.status ≢ "enabled")
              × (outbox_after_update old new rows
                  ≡ update_where (pending_of old.stream_id) due_now rows))
          ⊎ (IsSameDelivery new old
              × ((new.status ≢ "enabled") ⊎ (old.status ≡ "enabled"))
              × (outbox_after_update old new rows ≡ rows)))
unfolding outbox_after_update
outbox_after_update_lem old new rows = elim (Bool-cases (delivery_changed old new)) [
  | inl changed ↦
      rw (changed, outbox_after_update)
        (
          delete_where-idempotent (pending_of old.stream_id) rows,
          inl (
            (λ same. ground (arith, (delivery_changed_iff old new).1 same)),
            where_-delete_where (pending_of old.stream_id) rows,
          ),
        )
  | inr kept ↦ elim (Bool-cases (new.status == "enabled" && not (old.status == "enabled"))) [
    | inl enables ↦
        rw (kept, enables, outbox_after_update)
          (
            delete_where-update_where (pending_of old.stream_id) due_now
                (pending_of-due_now old.stream_id) rows,
            inr (
                inl (
                  (delivery_changed_iff old new).0 kept,
                  ground (arith, eq_iff new.status "enabled"),
                  ground (arith, eq_iff old.status "enabled"),
                  refl,
                )),
          )
    | inr leaves ↦
        rw (kept, leaves, outbox_after_update)
          (
            refl,
            inr (
                inr (
                  (delivery_changed_iff old new).0 kept,
                  ground (arith, eq_iff new.status "enabled", eq_iff old.status "enabled"),
                  refl,
                )),
          )
  ]
]

-- Deleting a stream by an id that is stored removes the stream and its pending rows; an id that is not
-- stored changes nothing. In both cases the other streams and rows stay.
pub delete_stream_by_id_lem :
    (e : Env) (id : String) (db : Db)
    → (get_stream_by_id e id (delete_stream_by_id id db).1 ≡ none)
      × (((delete_stream_by_id id db).0 ≡ true)
            × ((s : Stream) × (get_stream_by_id e id db ≡ some s))
            × (where_ (pending_of id) (delete_stream_by_id id db).1.outbox ≡ [])
          ⊎ ((delete_stream_by_id id db).0 ≡ false)
            × (get_stream_by_id e id db ≡ none)
            × ((delete_stream_by_id id db).1 ≡ db))
      × (delete_where (has_id id) (delete_stream_by_id id db).1.streams
          ≡ delete_where (has_id id) db.streams)
      × (delete_where (pending_of id) (delete_stream_by_id id db).1.outbox
          ≡ delete_where (pending_of id) db.outbox)
unfolding delete_stream_by_id get_stream_by_id
delete_stream_by_id_lem e id db = elim (count_where_cases (has_id id) db.streams) [
  | inl (some_row, (row, found)) ↦
      rw (some_row, delete_stream_by_id)
        (
          ground (arith, first_where-delete_where (has_id id) db.streams),
          inl (
            refl,
            (row_to_stream e row, ground (arith, found)),
            where_-delete_where (pending_of id) db.outbox,
          ),
          delete_where-idempotent (has_id id) db.streams,
          delete_where-idempotent (pending_of id) db.outbox,
        )
  | inr (no_row, not_found, same) ↦
      rw (no_row, same, delete_stream_by_id)
        (ground (arith, not_found), inr (refl, ground (arith, not_found), refl), same, refl)
]
