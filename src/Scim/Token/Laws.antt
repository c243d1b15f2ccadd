-- ===== src/Scim/Token/Laws.antt =====
-- A token that is handed out is stored and has not expired.
use ssf_transmitter.Prelude.{
  ℕ, ◌+◌, ◌-◌, ◌/◌, ◌≤◌, ◌<◌, String, ◌≡◌, ◌⊎◌, inl, inr, refl, Option, none, some, arith,
  Option-cases, Bool-cases, ltb, text_or_empty,
}
use ssf_transmitter.Result.{Result-cases, ok}
use ssf_transmitter.Value.{Value, Fields, text, obj, get}
use ssf_transmitter.Environment.{Env}
use ssf_transmitter.Database.{TokenRow, Db}
use ssf_transmitter.Scim.Token.{
  expiry, kept_refresh, save_tokens, load_tokens, TokenReply, response, network_error, lifetime,
  stored_refresh, save_refreshed, save_access, read_tokens, read_token_body, read_token_reply,
  refresh, get_valid_access_token,
}

-- The stored expiry lies after the present and no later than the lifetime says: it is earlier by a
-- minute or, for a lifetime of less than two, by half of it.
pub expiry_bounds :
    (now expires_in : ℕ)
    → 0 < expires_in
    → (now < expiry now expires_in)
      × (expiry now expires_in ≤ now + expires_in)
      × ((expires_in < 120) × (expiry now expires_in ≡ now + expires_in - expires_in / 2)
          ⊎ (120 ≤ expires_in) × (expiry now expires_in ≡ now + expires_in - 60))
unfolding expiry
expiry_bounds now expires_in h = grind arith

lifetime_positive : (int : Value → Option ℕ) (raw : Value) → 0 < lifetime int raw
lifetime_positive int raw = ground arith

-- A stored row that holds the token and has not expired.
pub record IsHeld (now : ℕ) (token : String) (db : Db) : Type 0 where
  pub row : TokenRow
  pub stored : db.tokens ≡ some row
  pub same : row.access_token ≡ token
  pub unexpired : now < row.expires_at

module _ (e : Env) (int : Value → Option ℕ) (now : ℕ) where
  save_refreshed-IsHeld :
      (answer : Fields) (access : String) (db db' : Db) (t : String)
      → save_refreshed e int now answer access db ≡ ok (some t, db')
      → IsHeld now t db'
  unfolding save_refreshed save_tokens
  save_refreshed-IsHeld answer access db db' t h =
      elim (Result-cases (stored_refresh e (get answer "refresh_token"))) [
        | inr (x, raised) ↦ absurd (ground arith)
        | inl (new, fine) ↦ record {
          row = record {
            access_token = access;
            refresh_token = kept_refresh new db.tokens;
            expires_at = expiry now (lifetime int (get answer "expires_in"));
            updated_at = now;
          };
          stored = ground arith;
          same = ground arith;
          unexpired =
              (expiry_bounds now (lifetime int (get answer "expires_in"))
                (lifetime_positive int (get answer "expires_in"))).0;
        }
      ]

  save_access-IsHeld :
      (answer : Fields) (v : Value) (db db' : Db) (t : String)
      → save_access e int now answer v db ≡ ok (some t, db')
      → IsHeld now t db'
  unfolding save_access
  save_access-IsHeld answer (text access) db db' t h =
      save_refreshed-IsHeld answer access db db' t (ground arith)
  save_access-IsHeld answer _ db db' t h = absurd (ground arith)

  read_token_body-IsHeld :
      (body : Option Value) (db db' : Db) (t : String)
      → read_token_body e int now body db ≡ ok (some t, db')
      → IsHeld now t db'
  unfolding read_token_body read_tokens
  read_token_body-IsHeld none db db' t h = absurd (ground arith)
  read_token_body-IsHeld (some (obj answer)) db db' t h =
      save_access-IsHeld answer (get answer "access_token") db db' t h
  read_token_body-IsHeld (some _) db db' t h = absurd (ground arith)

  read_token_reply-IsHeld :
      (reply : TokenReply) (db db' : Db) (t : String)
      → read_token_reply e int now reply db ≡ ok (some t, db')
      → IsHeld now t db'
  unfolding read_token_reply
  read_token_reply-IsHeld network_error db db' t h = absurd (ground arith)
  read_token_reply-IsHeld (response status body) db db' t h =
      read_token_body-IsHeld body db db' t (ground arith)

  refresh-IsHeld :
      (post : String → TokenReply) (token : Option String) (db db' : Db) (t : String)
      → refresh e int post now token db ≡ ok (some t, db')
      → IsHeld now t db'
  unfolding refresh
  refresh-IsHeld post token db db' t h =
      read_token_reply-IsHeld (post (text_or_empty token)) db db' t (ground arith)

-- A token that is handed out is the stored one and has not expired at the time of the check,
-- whatever Apple answers to a refresh, where the clock does not go back during the refresh.
pub get_valid_access_token-IsHeld :
    (e : Env) (int : Value → Option ℕ) (post : String → TokenReply) (now later : ℕ) (db db' : Db)
    (t : String)
    → now ≤ later
    → get_valid_access_token e int post now later db ≡ ok (some t, db')
    → IsHeld now t db'
unfolding get_valid_access_token load_tokens
get_valid_access_token-IsHeld e int post now later db db' t forward h =
    elim (Option-cases db.tokens) [
      | inl none_stored ↦ absurd (ground arith)
      | inr (row, found) ↦ elim (Bool-cases (ltb now row.expires_at)) [
        | inl fresh ↦ record {
          row = row;
          stored = ground arith;
          same = ground arith;
          unexpired = ground arith;
        }
        | inr expired ↦
            let held = refresh-IsHeld e int later post row.refresh_token db db' t (ground arith) in
            record {
              row = held.row;
              stored = held.stored;
              same = held.same;
              unexpired = omega (arith, held.unexpired);
            }
      ]
    ]

-- Saved tokens are read back with their expiry, the new refresh token where there is one, and the
-- stored one where there is none; nothing else of the tables changes.
pub load_tokens-save_tokens :
    (now : ℕ) (access : String) (new : Option String) (expires_in : ℕ) (db : Db)
    → (row : TokenRow) × (load_tokens (save_tokens now access new expires_in db) ≡ some row)
      × (row.access_token ≡ access)
      × (row.expires_at ≡ expiry now expires_in)
      × (((new ≡ none)
            × ((old : TokenRow) × (load_tokens db ≡ some old)
                × (row.refresh_token ≡ old.refresh_token)))
          ⊎ ((new ≡ none) × (load_tokens db ≡ none) × (row.refresh_token ≡ none))
          ⊎ ((r : String) × (new ≡ some r) × (row.refresh_token ≡ some r)))
      × ((save_tokens now access new expires_in db).streams ≡ db.streams)
      × ((save_tokens now access new expires_in db).outbox ≡ db.outbox)
unfolding load_tokens save_tokens
load_tokens-save_tokens now access new expires_in db = (
  record {
    access_token = access;
    refresh_token = kept_refresh new db.tokens;
    expires_at = expiry now expires_in;
    updated_at = now;
  },
  refl,
  refl,
  refl,
  kept new db.tokens,
  refl,
  refl,
)
  where
    kept :
        (new : Option String) (old : Option TokenRow)
        → ((new ≡ none)
            × ((row : TokenRow) × (old ≡ some row) × (kept_refresh new old ≡ row.refresh_token)))
          ⊎ ((new ≡ none) × (old ≡ none) × (kept_refresh new old ≡ none))
          ⊎ ((r : String) × (new ≡ some r) × (kept_refresh new old ≡ some r))
    kept (some r) old = inr (inr (r, refl, refl))
    kept none none = inr (inl (refl, refl, refl))
    kept none (some row) = inl (refl, (row, refl, refl))
