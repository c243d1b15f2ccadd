-- ===== src/Database/Patch.antt =====
-- What `update_stream` returns is what is read back from then on.
use ssf_transmitter.Prelude.{
  String, ◌≡◌, ◌≢◌, ◌⊎◌, inl, inr, refl, ap, sym, ◌∙◌, false, some, List, [], ◌∷◌, arith,
  Bool-cases, Option, Option-cases, eq_iff, ◌==◌, string_eq, strings_eq_instance,
}
use ssf_transmitter.Result.{Result-cases, ok}
use ssf_transmitter.Environment.{Env}
use ssf_transmitter.Crypto.{encrypt_token}
use ssf_transmitter.Crypto.Laws.{FernetRoundTrip, decrypt_token-encrypt_token}
use ssf_transmitter.Database.{Stream, StreamRow, Db, runtime_token, row_to_stream}
use ssf_transmitter.Database.Streams.{
  Payload, get_first_stream, list_streams, sort_desc, insert_desc, stored_token, patched,
  replacement_endpoint_token, update_row, update_stream, stored_token_is_undecryptable,
  list_or_raise, write_row, default_text, or_events, enables_without_token, write_update,
  receiver_replacement_is_missing,
}

runtime_token-encrypt_token :
    (e : Env) (fernet : FernetRoundTrip e) (token : String)
    → runtime_token e (encrypt_token e token) ≡ token
unfolding runtime_token
runtime_token-encrypt_token e fernet token =
    ground (arith, decrypt_token-encrypt_token e fernet token)

-- The token column after a patch reads back as the token of the patched stream.
runtime_token-stored_token :
    (e : Env) (fernet : FernetRoundTrip e) (p : Payload) (row : StreamRow) (events : List String)
    → runtime_token e (stored_token e p row)
      ≡ (patched p (row_to_stream e row) events).endpoint_token
unfolding stored_token patched row_to_stream
runtime_token-stored_token e fernet p row events =
    elim (Option-cases (replacement_endpoint_token p)) [
      | inl kept ↦ ground (arith, kept)
      | inr (token, replaced) ↦ ground (arith, replaced, runtime_token-encrypt_token e fernet token)
    ]

update_row-ok :
    (e : Env) (p : Payload) (row : StreamRow) (db db' : Db) (result : Option Stream)
    → update_row e p row db ≡ ok (result, db')
    → (events : List String) × (enables_without_token p row (row_to_stream e row) ≡ false)
      × (result ≡ some (patched p (row_to_stream e row) events))
      × (db'
          ≡ write_update
              (row_to_stream e row)
              (patched p (row_to_stream e row) events)
              (stored_token e p row)
              db)
unfolding update_row
update_row-ok e p row db db' result h =
    let stream = row_to_stream e row in
    elim (Result-cases (list_or_raise (or_events p.events_requested stream.events_requested))) [
      | inr (x, raised) ↦ absurd (ground arith)
      | inl (events, chosen) ↦ elim (Bool-cases (enables_without_token p row stream)) [
        | inl refused ↦ absurd (ground arith)
        | inr allowed ↦ (events, allowed, ground arith, ground arith)
      ]
    ]

row_id :
    (e : Env) (p : Payload) (row : StreamRow) (events : List String)
    → (patched p (row_to_stream e row) events).stream_id ≡ row.stream_id
unfolding patched row_to_stream
row_id e p row events = refl

same_id : (e : Env) (row : StreamRow) → (row_to_stream e row).stream_id ≡ row.stream_id
unfolding row_to_stream
same_id e row = refl

row_to_stream-write_row :
    (e : Env) (fernet : FernetRoundTrip e) (p : Payload) (row : StreamRow) (events : List String)
    → row_to_stream e
        (write_row (patched p (row_to_stream e row) events) (stored_token e p row) row)
      ≡ patched p (row_to_stream e row) events
unfolding row_to_stream patched
row_to_stream-write_row e fernet p row events =
    rw (runtime_token-stored_token e fernet p row events, row_to_stream) refl

get_first_stream-write_update :
    (e : Env) (fernet : FernetRoundTrip e) (p : Payload) (row : StreamRow) (db : Db)
    (events : List String)
    → db.streams ≡ row ∷ []
    → get_first_stream e (
        write_update
          (row_to_stream e row)
          (patched p (row_to_stream e row) events)
          (stored_token e p row)
          db)
      ≡ some (patched p (row_to_stream e row) events)
unfolding get_first_stream list_streams sort_desc insert_desc write_update
get_first_stream-write_update e fernet p row db events single = ground (
  arith,
  single,
  eq_iff row.stream_id row.stream_id,
  row_to_stream-write_row e fernet p row events,
  same_id e row,
)

never_undecryptable :
    (e : Env) (fernet : FernetRoundTrip e) (p : Payload) (row : StreamRow) (events : List String)
    → enables_without_token p row (row_to_stream e row) ≡ false
    → ((patched p (row_to_stream e row) events).status ≢ "enabled")
      ⊎ (stored_token_is_undecryptable
            (stored_token e p row)
            (patched p (row_to_stream e row) events).endpoint_token
          ≡ false)
unfolding enables_without_token patched stored_token stored_token_is_undecryptable
    receiver_replacement_is_missing encrypt_token
never_undecryptable e fernet p row events allowed =
    elim (Option-cases (replacement_endpoint_token p)) [
      | inl kept ↦
          elim (Bool-cases (default_text p.status (row_to_stream e row).status == "enabled")) [
            | inl on ↦ inr (ground (arith, kept))
            | inr off ↦ inl (
                ground
                  (arith, eq_iff (default_text p.status (row_to_stream e row).status) "enabled"))
          ]
      | inr (token, replaced) ↦ inr (ground (arith, replaced))
    ]

update_row_lem :
    (e : Env) (fernet : FernetRoundTrip e) (p : Payload) (row : StreamRow) (db db' : Db)
    (result : Option Stream)
    → db.streams ≡ row ∷ []
    → update_row e p row db ≡ ok (result, db')
    → (s : Stream) × (result ≡ some s)
      × (s.stream_id ≡ row.stream_id)
      × (get_first_stream e db' ≡ some s)
      × ((s.status ≢ "enabled")
          ⊎ (stored_token_is_undecryptable (stored_token e p row) s.endpoint_token ≡ false))
unfolding update_row
update_row_lem e fernet p row db db' result single h =
    let (events, enabled, returned, written) = update_row-ok e p row db db' result h in
    (
      patched p (row_to_stream e row) events,
      returned,
      row_id e p row events,
      ap (get_first_stream e) written
          ∙ get_first_stream-write_update e fernet p row db events single,
      never_undecryptable e fernet p row events enabled,
    )

update_stream-single :
    (e : Env) (p : Payload) (row : StreamRow) (db : Db)
    → db.streams ≡ row ∷ []
    → update_stream e p db ≡ update_row e p row db
unfolding update_stream sort_desc insert_desc
update_stream-single e p row db single = rw single refl

-- A patch of the one stored stream that does not raise returns the stream that is read back from
-- then on, under the same id. An enabled stream whose stored token cannot be decrypted is no result.
pub update_stream_lem :
    (e : Env) (fernet : FernetRoundTrip e) (p : Payload) (row : StreamRow) (db db' : Db)
    (result : Option Stream)
    → db.streams ≡ row ∷ []
    → update_stream e p db ≡ ok (result, db')
    → (s : Stream) × (result ≡ some s)
      × (s.stream_id ≡ row.stream_id)
      × (get_first_stream e db' ≡ some s)
      × ((s.status ≢ "enabled")
          ⊎ (stored_token_is_undecryptable (stored_token e p row) s.endpoint_token ≡ false))
update_stream_lem e fernet p row db db' result single h =
    update_row_lem e fernet p row db db' result single
      (sym (update_stream-single e p row db single) ∙ h)
