-- ===== src/Scim/Token.antt =====
-- app/scim/token.py: the OAuth tokens of Apple SCIM, their storage and their refresh. Apple's answer
-- to a refresh is an argument, as is Python's `int` on a JSON value.
pub mod Laws
use ssf_transmitter.Prelude.{
  ℕ, ◌+◌, ◌-◌, ◌/◌, min, String, Bool, true, false, Option, none, some, ltb, ◌==◌, nat_eq,
  if◌then◌else◌, truthy, text_or_empty,
}
use ssf_transmitter.Result.{Result, ok, err, unexpected, ◌>>=◌}
use ssf_transmitter.Value.{Value, Fields, null, text, arr, obj, get}
use ssf_transmitter.Environment.{Env}
use ssf_transmitter.Database.{TokenRow, Db}

-- A lifetime is not negative: the callers replace one that is.
unfoldable pub expiry : ℕ → ℕ → ℕ
expiry now expires_in = now + expires_in - min 60 (expires_in / 2)

-- COALESCE of the new refresh token and the stored one.
abbrev pub kept_refresh : Option String → Option TokenRow → Option String
kept_refresh (some token) row = some token
kept_refresh none none = none
kept_refresh none (some row) = row.refresh_token

unfoldable pub save_tokens : ℕ → String → Option String → ℕ → Db → Db
unfolding expiry
save_tokens now access_token refresh_token expires_in db = record db {
  tokens = some (record {
    access_token = access_token;
    refresh_token = kept_refresh refresh_token db.tokens;
    expires_at = expiry now expires_in;
    updated_at = now;
  });
}

unfoldable pub load_tokens : Db → Option TokenRow
load_tokens db = db.tokens

-- The answer to the refresh request: a status with its JSON body, if it is one, or an
-- httpx.HTTPError.
pub data TokenReply : Type 0 where
  response : ℕ → Option Value → TokenReply
  network_error : TokenReply

-- What the rest of the program is left with: the token if there is one, and the tables.
abbrev pub Refreshed : Type 0
Refreshed = Result (Option String × Db)

-- The new refresh token as SQLite stores it; it stores no list and no object.
abbrev pub stored_refresh : Env → Value → Result (Option String)
stored_refresh e null = ok none
stored_refresh e (text token) = ok (some token)
stored_refresh e (arr _) = err unexpected
stored_refresh e (obj _) = err unexpected
stored_refresh e v = ok (some (e.show v))

-- `int` gives `none` where it raises TypeError or ValueError, or its result is negative. An infinite
-- number, for which it raises OverflowError, is not modelled.
abbrev pub lifetime : (Value → Option ℕ) → Value → ℕ
lifetime int raw = elim (int raw) [
  | none ↦ 3600
  | some expires_in ↦ if ltb 0 expires_in then expires_in else 3600
]

unfoldable pub save_refreshed : Env → (Value → Option ℕ) → ℕ → Fields → String → Db → Refreshed
unfolding save_tokens
save_refreshed e int now answer access_token db = do
  new_refresh ← stored_refresh e (get answer "refresh_token")
  ok (
    some access_token,
    save_tokens now access_token new_refresh (lifetime int (get answer "expires_in")) db,
  )

-- The access token has to be a text that is not empty.
unfoldable pub save_access : Env → (Value → Option ℕ) → ℕ → Fields → Value → Db → Refreshed
unfolding save_refreshed
save_access e int now answer (text access_token) db =
    if truthy access_token then save_refreshed e int now answer access_token db else ok (none, db)
save_access e int now answer _ db = ok (none, db)

unfoldable pub read_tokens : Env → (Value → Option ℕ) → ℕ → Fields → Db → Refreshed
unfolding save_access
read_tokens e int now answer db = save_access e int now answer (get answer "access_token") db

-- A body that is JSON and no object raises AttributeError.
unfoldable pub read_token_body : Env → (Value → Option ℕ) → ℕ → Option Value → Db → Refreshed
unfolding read_tokens
read_token_body e int now none db = ok (none, db)
read_token_body e int now (some (obj answer)) db = read_tokens e int now answer db
read_token_body e int now (some _) db = err unexpected

unfoldable pub read_token_reply : Env → (Value → Option ℕ) → ℕ → TokenReply → Db → Refreshed
unfolding read_token_body
read_token_reply e int now network_error db = ok (none, db)
read_token_reply e int now (response status body) db =
    if status == 200 then read_token_body e int now body db else ok (none, db)

-- `post` answers the request that carries the refresh token; `now` is the time of the save.
unfoldable pub refresh :
    Env → (Value → Option ℕ) → (String → TokenReply) → ℕ → Option String → Db → Refreshed
unfolding read_token_reply
refresh e int post now refresh_token db =
    let token = text_or_empty refresh_token in
    if truthy token then read_token_reply e int now (post token) db else ok (none, db)

-- `now` is the time of the check, `later` that of the save.
unfoldable pub get_valid_access_token :
    Env → (Value → Option ℕ) → (String → TokenReply) → ℕ → ℕ → Db → Refreshed
unfolding refresh load_tokens
get_valid_access_token e int post now later db = elim (load_tokens db) [
  | none ↦ ok (none, db)
  | some tokens ↦
      if ltb now tokens.expires_at
      then ok (some tokens.access_token, db)
      else refresh e int post later tokens.refresh_token db
]
