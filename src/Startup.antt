-- ===== src/Startup.antt =====
-- app/startup.py: the checks before the start, each giving whether it failed, and the pause of
-- streams whose tokens cannot be decrypted. The lines that they log are in Startup/Report.
pub mod Laws
pub mod Report
use ssf_transmitter.Prelude.{
  ℕ, String, text_length, Bool, true, false, not, ◌&&◌, ◌||◌, Option, none, some, List, [], ◌∷◌,
  ltb, ◌==◌, string_eq, if◌then◌else◌, truthy, text_or_empty, is_empty, all, elem, map,
}
use ssf_transmitter.Result.{Result, Error, ok, err, token_undecryptable, ◌>>=◌}
use ssf_transmitter.Environment.{Env}
use ssf_transmitter.Crypto.{decrypt_token}
use ssf_transmitter.Database.{StreamRow, Db}
use ssf_transmitter.Security.Url.{receiver_host_allowed}

-- What the checks find of the file system: the directory of the database and its file.
pub record Disk : Type 0 where
  pub dir_exists : Bool
  pub dir_is_writable : Bool
  pub file_exists : Bool
  pub file_is_writable : Bool

abbrev pub check_ssf_issuer : Env → Bool
check_ssf_issuer e = not (truthy e.settings.ssf_issuer)

abbrev pub check_ssf_base_url : Env → Bool
check_ssf_base_url e = not (truthy e.settings.ssf_base_url)

unfoldable pub check_management_token : Env → Bool
unfolding text_length
check_management_token e = ltb (text_length e.settings.ssf_management_token) 32

unfoldable pub check_webhook_auth : Env → Bool
unfolding text_length
check_webhook_auth e =
    let mode = e.settings.ssf_webhook_auth_mode in
    if mode == "bearer"
    then ltb (text_length (text_or_empty e.settings.ssf_webhook_token)) 32
    else if mode == "hmac"
    then not (ltb 0 (text_length e.settings.ssf_webhook_secret))
    else not (mode == "unsigned")

unfoldable pub check_database : Disk → Bool
check_database disk =
    if not disk.dir_exists
    then false
    else not disk.dir_is_writable || (disk.file_exists && not disk.file_is_writable)

-- The rows are none where the table cannot be read.
unfoldable pub check_stored_streams_allowlist : Env → Option (List StreamRow) → Bool
unfolding receiver_host_allowed
check_stored_streams_allowlist e none = true
check_stored_streams_allowlist e (some rows) =
    all (λ row. receiver_host_allowed e row.endpoint_url e.settings.ssf_allowed_receiver_hosts) rows

unfoldable pub check_receiver_allowlist : Env → Option (List StreamRow) → Bool
unfolding check_stored_streams_allowlist
check_receiver_allowlist e rows =
    if is_empty e.settings.ssf_allowed_receiver_hosts
    then false
    else not (check_stored_streams_allowlist e rows)

-- Whether the checks pass; else the process exits.
unfoldable pub run_preflight_checks : Env → Disk → Option (List StreamRow) → Bool
unfolding check_management_token check_webhook_auth check_database check_receiver_allowlist
run_preflight_checks e disk rows = not (
    check_ssf_issuer e
    || check_ssf_base_url e
    || check_management_token e
    || check_webhook_auth e
    || check_database disk
    || check_receiver_allowlist e rows)

-- Whether a token raises TokenDecryptionError; any other exception ends the search.
abbrev pub refused : Result String → Result Bool
refused (ok token) = ok false
refused (err token_undecryptable) = ok true
refused (err x) = err x

unfoldable pub is_undecryptable : Env → String → Result Bool
unfolding decrypt_token
is_undecryptable e token = if truthy token then refused (decrypt_token e token) else ok false

unfoldable pub undecryptable_streams : Env → List StreamRow → Result (List String)
unfolding is_undecryptable
undecryptable_streams e [] = ok []
undecryptable_streams e (row ∷ rows) = do
  failed ← is_undecryptable e row.endpoint_token
  rest ← undecryptable_streams e rows
  ok (if failed then row.stream_id ∷ rest else rest)

-- UPDATE streams SET status = 'paused' WHERE stream_id = ?, for each id.
abbrev pub pause : List String → StreamRow → StreamRow
pause ids row = if elem row.stream_id ids then record row { status = "paused" } else row

-- Whether SQLite lets the rows be read, and the update be made and committed.
pub record Sqlite : Type 0 where
  pub reads : Bool
  pub writes : Bool

abbrev pub pause_found : Sqlite → Db → Result (List String) → Db
pause_found sqlite db (ok []) = db
pause_found sqlite db (ok ids) =
    if sqlite.writes then record db { streams = map (pause ids) db.streams } else db
pause_found sqlite db (err x) = db

-- An exception is logged and the start goes on, with the tables as they were: an update that is not
-- committed is undone.
unfoldable pub quarantine_undecryptable_receiver_tokens : Env → Sqlite → Db → Db
unfolding undecryptable_streams
quarantine_undecryptable_receiver_tokens e sqlite db =
    if not sqlite.reads then db else pause_found sqlite db (undecryptable_streams e db.streams)
