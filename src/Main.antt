-- ===== src/Main.antt =====
-- app/main.py: the start of the process, the scheduled synchronisation, and the headers that every
-- answer gets. The tasks that are started and the wiring of the framework are left out.
pub mod Laws
pub mod Headers
use ssf_transmitter.Prelude.{
  ℕ, String, Bool, true, false, not, Option, none, some, List, if◌then◌else◌, truthy, text_or_empty,
}
use ssf_transmitter.Result.{Result, ok, err}
use ssf_transmitter.Environment.{Env, Settings}
use ssf_transmitter.Database.{Db, StreamRow, init_db}
use ssf_transmitter.Crypto.Keys.{KeyFiles, KeyPair, ensure_keys, with_files}
use ssf_transmitter.Startup.{
  Disk, Sqlite, run_preflight_checks, quarantine_undecryptable_receiver_tokens,
}
use ssf_transmitter.Config.{Vars}
use ssf_transmitter.Config.Load.{from_env}
use ssf_transmitter.Alerts.{Alert, Alerted, LastSent, send_alert, silent}
use ssf_transmitter.Routes.AppleScim.Sync.{
  Peers, Store, Outcome, no_token, no_users, unfinished, synced, operation,
}

-- What the process finds when it starts: the file system, the keys, the tables, if there are any,
-- whether the check of their tokens can read and write them, and a key that is generated when it is needed, with SHA-256 and base64.
pub record Found : Type 0 where
  pub disk : Disk
  pub files : KeyFiles
  pub stored : Option Db
  pub sqlite : Sqlite
  pub pair : KeyPair
  pub sha256 : String → String
  pub b64 : List ℕ → String

-- The rows that the check of the allowlist reads.
abbrev pub stored_rows : Option Db → Option (List StreamRow)
stored_rows none = none
stored_rows (some db) = some db.streams

-- `CREATE TABLE IF NOT EXISTS`
abbrev pub created : Option Db → Db
created none = init_db
created (some db) = db

-- What a started process runs with.
pub record Started : Type 0 where
  pub env : Env
  pub db : Db

-- The part of `lifespan` before the service answers; `none` is the exit of a failed check.
unfoldable pub lifespan : Env → Found → Option Started
unfolding run_preflight_checks ensure_keys with_files quarantine_undecryptable_receiver_tokens
lifespan e f =
    let e' = with_files e (ensure_keys f.sha256 f.b64 f.pair f.files) in
    if not (run_preflight_checks e f.disk (stored_rows f.stored))
    then none
    else some (record {
      env = e';
      db = quarantine_undecryptable_receiver_tokens e' f.sqlite (created f.stored);
    })

-- The process from its variables on: an error of the configuration exits too.
unfoldable pub boot : Env → Vars → Found → Option Started
unfolding from_env lifespan
boot e vars f = elim (from_env e vars) [
  | err x ↦ none
  | ok settings ↦ lifespan (record e { settings = settings }) f
]

-- What a scheduled sync leaves, and the alert that it posts.
pub record Scheduled : Type 0 where
  pub store : Store
  pub alerted : Alerted

abbrev pub alert_without_token : Env → Alert → LastSent → Result Outcome → Alerted
alert_without_token e a last_sent (ok no_token) = send_alert e a last_sent
alert_without_token e a last_sent _ = silent last_sent

-- The run of a scheduled sync, once it is inside; every exception is caught. The alert has the event
-- and the message of the call.
unfoldable pub run_scheduled_apple_scim_sync : Env → Peers → Alert → LastSent → Store → Scheduled
unfolding operation send_alert
run_scheduled_apple_scim_sync e p a last_sent store =
    let done = operation e p store in
    let call = record a {
      event = "scim_no_valid_token";
      message =
          "Apple SCIM sync skipped — no valid token. Visit /apple-scim/authorize to re-authorize";
      severity = "error";
    } in
    record { store = done.1; alerted = alert_without_token e call last_sent done.0 }
