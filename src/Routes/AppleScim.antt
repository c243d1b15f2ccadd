-- ===== src/Routes/AppleScim.antt =====
-- app/routes/apple_scim.py: the OAuth states and the callback of Apple's authorization. Times of
-- states are milliseconds of the monotonic clock. No other request is served while the code is
-- exchanged, and the sync that a callback schedules is left out.
pub mod Laws
pub mod History
pub mod Sync
use ssf_transmitter.Prelude.{
  ℕ, ◌-◌, String, Bool, true, false, not, ◌||◌, ◌&&◌, Option, none, some, List, [], ◌∷◌, ltb, ◌==◌,
  string_eq, nat_eq, if◌then◌else◌, truthy, text_or_empty, delete_where,
}
use ssf_transmitter.Result.{
  Result, Error, ok, err, http, unexpected, raise_if, or_raise, ◌>>=◌, ◌>>◌,
}
use ssf_transmitter.Value.{Value, Fields, null, text, arr, obj, get, is_true}
use ssf_transmitter.Environment.{Env}
use ssf_transmitter.Database.{Db}
use ssf_transmitter.Scim.Token.{
  TokenReply, response, network_error, save_tokens, stored_refresh, lifetime,
}

abbrev pub state_ttl : ℕ
state_ttl = 600_000

-- The pending states with the times of their creation.
abbrev pub States : Type 0
States = List (String × ℕ)

unfoldable pub cleanup_expired_states : ℕ → States → States
cleanup_expired_states now states = delete_where (λ s. ltb state_ttl (now - s.1)) states

-- `states[state] = now`
unfoldable pub put_state : String → ℕ → States → States
put_state state now [] = (state, now) ∷ []
put_state state now (s ∷ states) =
    let rest = put_state state now states in
    if s.0 == state then (state, now) ∷ states else s ∷ rest

unfoldable pub add_state : ℕ → String → States → States
unfolding cleanup_expired_states put_state
add_state now state states = put_state state now (cleanup_expired_states now states)

-- `state in states`
unfoldable pub is_pending_state : String → States → Bool
is_pending_state state [] = false
is_pending_state state (s ∷ states) = s.0 == state || is_pending_state state states

unfoldable pub consume_state : ℕ → String → States → Bool × States
unfolding cleanup_expired_states is_pending_state
consume_state now state states =
    let fresh = cleanup_expired_states now states in
    if is_pending_state state fresh
    then (true, delete_where (λ s. s.0 == state) fresh)
    else (false, fresh)

unfoldable pub is_valid_state : ℕ → String → States → Bool × States
unfolding cleanup_expired_states is_pending_state
is_valid_state now state states =
    let fresh = cleanup_expired_states now states in (is_pending_state state fresh, fresh)

abbrev pub is_set : Option String → Bool
is_set o = truthy (text_or_empty o)

unfoldable pub apple_scim_enabled : Env → Bool
apple_scim_enabled e =
    is_set e.settings.apple_scim_client_id
    && is_set e.settings.apple_scim_client_secret
    && is_set e.settings.authentik_url
    && is_set e.settings.authentik_token

-- An access token that is true, as SQLite stores it.
abbrev pub stored_access : Env → Value → Result String
stored_access e (text token) = ok token
stored_access e (arr _) = err unexpected
stored_access e (obj _) = err unexpected
stored_access e v = ok (e.show v)

-- The lifetime, whether there is a refresh token, and the tables.
abbrev pub Exchanged : Type 0
Exchanged = (ℕ × Bool) × Db

unfoldable pub exchange_body : Env → (Value → Option ℕ) → ℕ → Fields → Db → Result Exchanged
unfolding save_tokens
exchange_body e int now answer db = do
  raise_if (not (is_true (get answer "access_token")))
      (http 502 "Apple did not return an access_token")
  access_token ← stored_access e (get answer "access_token")
  refresh_token ← stored_refresh e (get answer "refresh_token")
  let expires_in = lifetime int (get answer "expires_in")
  ok (
    (expires_in, is_true (get answer "refresh_token")),
    save_tokens now access_token refresh_token expires_in db,
  )

-- A body that is no JSON, or no object, raises.
unfoldable pub exchange_reply : Env → (Value → Option ℕ) → ℕ → TokenReply → Db → Result Exchanged
unfolding exchange_body
exchange_reply e int now network_error db =
    err (http 502 "Network error contacting Apple token endpoint")
exchange_reply e int now (response status (some (obj answer))) db =
    if status == 200
    then exchange_body e int now answer db
    else err (http 502 "Apple token endpoint rejected the code")
exchange_reply e int now (response status _) db =
    if status == 200
    then err unexpected
    else err (http 502 "Apple token endpoint rejected the code")

-- What the callback is given: its query, whether another operation holds the connection, and the
-- clocks and Apple's answer for the exchange.
pub record Callback : Type 0 where
  pub code : Option String
  pub state : Option String
  pub error : Option String
  pub is_busy : Bool
  pub monotonic : ℕ
  pub now : ℕ
  pub answer : String → TokenReply

-- The result with the states and the tables that are left.
pub record Called : Type 0 where
  pub result : Result (ℕ × Bool)
  pub states : States
  pub db : Db

abbrev pub exchanged : States → Db → Result Exchanged → Called
exchanged states db (ok (tokens, db')) = record { result = ok tokens; states = states; db = db' }
exchanged states db (err x) = record { result = err x; states = states; db = db }

abbrev pub refuse : Error → States → Db → Called
refuse x states db = record { result = err x; states = states; db = db }

-- From the check of the state on. The two reads of the clock have nothing between them.
unfoldable pub claim : Env → (Value → Option ℕ) → Callback → String → String → States → Db → Called
unfolding is_valid_state consume_state exchange_reply
claim e int c code state states db =
    let valid = is_valid_state c.monotonic state states in
    let used = consume_state c.monotonic state valid.1 in
    if not valid.0
    then refuse (http 400 "Invalid or expired OAuth state parameter") valid.1 db
    else if c.is_busy
    then refuse (http 409 "Another Apple SCIM operation is in progress") valid.1 db
    else if not used.0
    then refuse (http 400 "Invalid or expired OAuth state parameter") used.1 db
    else exchanged used.1 db (exchange_reply e int c.now (c.answer code) db)

unfoldable pub callback : Env → (Value → Option ℕ) → Callback → States → Db → Called
unfolding apple_scim_enabled
callback e int c states db =
    if not (apple_scim_enabled e)
    then refuse (http 503 "Apple SCIM sync is not configured") states db
    else if is_set c.error
    then refuse (http 400 "Apple returned an OAuth error") states db
    else if not (is_set c.code)
    then refuse (http 400 "Missing 'code' parameter in callback") states db
    else if not (is_set c.state)
    then refuse (http 400 "Invalid or expired OAuth state parameter") states db
    else claim e int c (text_or_empty c.code) (text_or_empty c.state) states db
