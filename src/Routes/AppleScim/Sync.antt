-- ===== src/Routes/AppleScim/Sync.antt =====
-- app/routes/apple_scim.py: the synchronisation that the sync route and the callback start, and the
-- status and authorize routes. The server of Authentik, Apple and the clocks are one record.
pub mod Laws
use Prim.Native.String.{◌++◌}
use ssf_transmitter.Prelude.{
  ℕ, ◌-◌, String, Bool, true, false, not, Option, none, some, List, [], ◌∷◌, ltb, if◌then◌else◌,
  truthy, text_or_empty,
}
use ssf_transmitter.Result.{Result, ok, err, http, http_failure, user_list_error, unexpected}
use ssf_transmitter.Value.{Value, Fields, text, int, boolean, field, end}
use ssf_transmitter.Environment.{Env}
use ssf_transmitter.Database.{Db, TokenRow}
use ssf_transmitter.Scim.Http.{Act, Apple, Sent, pure, ◌>>=◌}
use ssf_transmitter.Scim.Token.{TokenReply, get_valid_access_token, load_tokens}
use ssf_transmitter.Scim.Users.{Asked, Authentik, get_users}
use ssf_transmitter.Scim.Run.{SyncResult}
use ssf_transmitter.Scim.Sync.{sync_users}
use ssf_transmitter.Scim.Coordination.{Coordinator, enter, release, claimed, refused, waits}
use ssf_transmitter.Routes.AppleScim.{States, add_state, apple_scim_enabled, is_set}
use ssf_transmitter.Config.Load.{public_url}

-- What a synchronisation meets: Python's `int`, the answer to a token refresh, the time of the
-- check of the token and that of its save, Authentik, the pages read of it at most, and Apple.
pub record Peers : Type 0 where
  pub int : Value → Option ℕ
  pub post : String → TokenReply
  pub now : ℕ
  pub later : ℕ
  pub authentik : Authentik
  pub fuel : ℕ
  pub apple : Apple

-- The tables, with what was asked of Authentik and sent to Apple.
pub record Store : Type 0 where
  pub db : Db
  pub asked : Asked
  pub sent : Sent

-- No access token, an upstream error, more pages than the fuel, or the counters.
pub data Outcome : Type 0 where
  no_token no_users unfinished : Outcome
  synced : SyncResult → Outcome

abbrev pub token_read : Store → Result (Option String × Db) → Result (Option String) × Store
token_read store (ok (token, db)) = (ok token, record store { db = db })
token_read store (err x) = (err x, store)

unfoldable pub valid_token : Env → Peers → Act Store (Option String)
unfolding get_valid_access_token
valid_token e p store =
    token_read store (get_valid_access_token e p.int p.post p.now p.later store.db)

unfoldable pub source_users : Env → Peers → Act Store (Option (Option (List Fields)))
unfolding get_users
source_users e p store =
    let found = get_users e p.authentik p.fuel store.asked in
    (found.0, record store { asked = found.1 })

abbrev pub counted : Result SyncResult → Result Outcome
counted (ok result) = ok (synced result)
counted (err x) = err x

unfoldable pub sync_found : Env → Peers → List Fields → Act Store Outcome
unfolding sync_users
sync_found e p users store =
    let done = sync_users e p.apple users store.sent in
    (counted done.0, record store { sent = done.1 })

abbrev pub sync_source : Env → Peers → Option (Option (List Fields)) → Act Store Outcome
sync_source e p none = pure unfinished
sync_source e p (some none) = pure no_users
sync_source e p (some (some users)) = sync_found e p users

-- What stands inside `scim_operation`.
unfoldable pub operation : Env → Peers → Act Store Outcome
unfolding valid_token source_users sync_found pure ◌>>=◌
operation e p = do
  access_token ← valid_token e p
  elim (truthy (text_or_empty access_token)) [
    | false ↦ pure no_token
    | true ↦ do users ← source_users e p; sync_source e p users
  ]

-- The handlers of the route around it; `none` stands for too little fuel, and counters for an answer
-- with the body `sync_body` makes of them.
abbrev pub answered : Result Outcome → Result (Option SyncResult)
answered (ok no_token) = err (http 401 "No valid Apple access token")
answered (ok no_users) = err (http 502 "Could not fetch users from Authentik")
answered (ok unfinished) = ok none
answered (ok (synced result)) = ok (some result)
answered (err (user_list_error m)) = err (http 502 "Could not reach Apple Business Manager")
answered (err http_failure) = err (http 502 "Could not reach Apple Business Manager")
answered (err x) = err x

-- The answer, what is stored, and the coordinator after the call.
pub record Synced : Type 0 where
  pub result : Result (Option SyncResult)
  pub store : Store
  pub coordinator : Coordinator

-- A call that does not wait is refused while another operation runs.
unfoldable pub sync : Env → Peers → Coordinator → Store → Synced
unfolding operation release
sync e p c store =
    if not (apple_scim_enabled e)
    then record {
      result = err (http 503 "Apple SCIM sync is not configured");
      store = store;
      coordinator = c;
    }
    else elim (enter false c) [
      | claimed c' ↦
          let done = operation e p store in
          record { result = answered done.0; store = done.1; coordinator = release c' }
      | _ ↦ record {
        result = err (http 409 "Another Apple SCIM operation is in progress");
        store = store;
        coordinator = c;
      }
    ]

-- The body of an answer with counters.
unfoldable pub sync_body : Env → SyncResult → Fields
sync_body e result = field "status" (text "ok") (
    field "created" (int result.created) (
      field "updated" (int result.updated) (
        field "unchanged" (int result.unchanged) (
          field "conflicts" (int result.conflicts) (
            field "errors" (int result.errors) (
              field "update_400_invalid_request" (int result.update_400_invalid_request) (
                field "out_of_scope_diffs" (int result.out_of_scope_diffs)
                  (field "update_mode" (text e.settings.apple_scim_update_mode) end))))))))

-- The sync after an authorization, once it is inside; every exception is caught.
unfoldable pub background_sync : Env → Peers → Store → Store
unfolding operation
background_sync e p store = (operation e p store).1

unfoldable pub status : Env → ℕ → Db → Fields
unfolding apple_scim_enabled load_tokens
status e now db =
    if not (apple_scim_enabled e)
    then field "enabled" (boolean false) (field "reason" (text "not_configured") end)
    else elim (load_tokens db) [
      | none ↦ field "enabled" (boolean true) (
          field "authorized" (boolean false)
            (field "reason" (text "Visit /apple-scim/authorize to connect") end))
      | some tokens ↦ field "enabled" (boolean true) (
          field "authorized" (boolean true) (
            field "token_valid" (boolean (ltb now tokens.expires_at)) (
              field "token_expires_at" (int tokens.expires_at) (
                field "token_expires_in_seconds" (int (tokens.expires_at - now)) (
                  field "has_refresh_token" (boolean (is_set tokens.refresh_token)) (
                    field "last_updated" (int tokens.updated_at) (
                      field "alert_webhook_configured"
                        (boolean (is_set e.settings.apple_scim_alert_webhook_url)) end)))))))
    ]

-- The parameters of the redirect to Apple, which `urlencode` turns into a query, and the states.
unfoldable pub authorize :
    Env → (List (String × String) → String) → ℕ → String → States → Result String × States
unfolding apple_scim_enabled add_state public_url
authorize e urlencode now state states =
    let params =
      ("client_id", text_or_empty e.settings.apple_scim_client_id)
      ∷ ("redirect_uri", public_url e.settings "/apple-scim/callback")
      ∷ ("response_type", "code")
      ∷ ("state", state)
      ∷ [] in
    if not (apple_scim_enabled e)
    then (err (http 503 "Apple SCIM sync is not configured"), states)
    else (
      ok (e.settings.apple_scim_authorize_url ++ ("?" ++ urlencode params)),
      add_state now state states,
    )
