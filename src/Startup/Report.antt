-- ===== src/Startup/Report.antt =====
-- app/startup.py: the lines that the checks log, each as its mark and what it is about, with the
-- checks that never fail the start. The values shown in a line are left out.
pub mod Laws
use ssf_transmitter.Prelude.{
  ℕ, String, Bool, true, false, not, ◌&&◌, ◌||◌, Option, none, some, List, [], ◌∷◌, ◌++◌, ltb, ◌==◌,
  string_eq, nat_eq, if◌then◌else◌, truthy, text_or_empty, text_length, contains, is_empty,
}
use ssf_transmitter.Environment.{Env}
use ssf_transmitter.Database.{StreamRow, TokenRow}
use ssf_transmitter.Crypto.Keys.{KeyFiles}
use ssf_transmitter.Scim.Http.{ScimReply, reply, no_reply}
use ssf_transmitter.Scim.Url.{rstrip_slash}
use ssf_transmitter.Security.Url.{safe_hostname}
use ssf_transmitter.Config.{Vars, getenv}
use ssf_transmitter.Routes.AppleScim.{is_set, apple_scim_enabled}
use ssf_transmitter.Startup.{Disk, check_stored_streams_allowlist}

-- `_OK`, `_WARN` and `_FAIL`
pub data Mark : Type 0 where
  passed warned failed : Mark

abbrev pub Line : Type 0
Line = Mark × String

abbrev pub Lines : Type 0
Lines = List Line

-- A line if a test holds, and one of two lines.
abbrev pub line_if : Bool → Line → Lines
line_if true line = line ∷ []
line_if false line = []

abbrev pub one_of : Bool → Line → Line → Lines
one_of true line other = line ∷ []
one_of false line other = other ∷ []

-- The lines of one check after the other.
abbrev pub log_all : List Lines → Lines
log_all [] = []
log_all (lines ∷ rest) = lines ++ log_all rest

-- What the checks read beside the settings: the variables, the files, the rows of the streams and of
-- the tokens, if they can be read, the time, and the answer of Authentik.
pub record Probe : Type 0 where
  pub vars : Vars
  pub files : KeyFiles
  pub disk : Disk
  pub rows : Option (List StreamRow)
  pub tokens : Option TokenRow
  pub now : ℕ
  pub authentik : ScimReply

abbrev pub log_ssf_issuer : Env → Lines
log_ssf_issuer e =
    let issuer = e.settings.ssf_issuer in
    let base = e.settings.ssf_base_url in
    if not (truthy issuer)
    then (failed, "SSF_ISSUER") ∷ []
    else (passed, "SSF_ISSUER")
      ∷ (if e.settings.ssf_allow_custom_issuer
          then []
          else line_if (not (rstrip_slash issuer == rstrip_slash base)) (warned, "SSF_ISSUER")
            ++ line_if (contains "/application/o/" issuer) (warned, "SSF_ISSUER"))

abbrev pub log_ssf_base_url : Env → Lines
log_ssf_base_url e =
    one_of (truthy e.settings.ssf_base_url) (passed, "SSF_BASE_URL") (failed, "SSF_BASE_URL")

abbrev pub log_management_token : Env → Lines
log_management_token e =
    one_of (ltb (text_length e.settings.ssf_management_token) 32) (failed, "SSF_MANAGEMENT_TOKEN")
      (passed, "SSF_MANAGEMENT_TOKEN")

abbrev pub log_webhook_auth : Env → Vars → Lines
log_webhook_auth e vars =
    let mode = e.settings.ssf_webhook_auth_mode in
    if mode == "bearer"
    then (passed, "SSF_WEBHOOK_AUTH_MODE")
      ∷ one_of (ltb (text_length (text_or_empty e.settings.ssf_webhook_token)) 32)
          (failed, "SSF_WEBHOOK_TOKEN") (passed, "SSF_WEBHOOK_TOKEN")
    else if mode == "hmac"
    then (passed, "SSF_WEBHOOK_AUTH_MODE")
      ∷ one_of (ltb 0 (text_length e.settings.ssf_webhook_secret)) (passed, "SSF_WEBHOOK_SECRET")
          (failed, "SSF_WEBHOOK_SECRET")
    else if mode == "unsigned"
    then (warned, "SSF_WEBHOOK_AUTH_MODE")
      ∷ line_if (e.lower (getenv vars "SSF_ALLOW_UNSIGNED_WEBHOOK" "") == "true")
          (warned, "SSF_ALLOW_UNSIGNED_WEBHOOK")
    else (failed, "SSF_WEBHOOK_AUTH_MODE") ∷ []

abbrev pub is_there {ℓ} : {A : Type ℓ} → Option A → Bool
is_there none = false
is_there (some a) = true

abbrev pub check_signing_key : Probe → Lines
check_signing_key p =
    one_of (is_there p.files.private_key) (passed, "Signing key") (warned, "Signing key")

abbrev pub check_jwks : Probe → Lines
check_jwks p = one_of (is_there p.files.jwks) (passed, "JWKS") (warned, "JWKS")

abbrev pub log_database : Disk → Lines
log_database disk =
    if not disk.dir_exists
    then (warned, "Database dir") ∷ []
    else if not disk.dir_is_writable
    then (failed, "Database dir") ∷ []
    else one_of (disk.file_exists && not disk.file_is_writable) (failed, "Database")
        (passed, "Database")

abbrev pub check_pii_pepper : Env → Lines
check_pii_pepper e =
    one_of (truthy e.settings.pii_pepper) (passed, "SSF_PII_PEPPER") (warned, "SSF_PII_PEPPER")

unfoldable pub log_receiver_allowlist : Env → Option (List StreamRow) → Lines
unfolding check_stored_streams_allowlist
log_receiver_allowlist e rows =
    if is_empty e.settings.ssf_allowed_receiver_hosts
    then (warned, "Receiver allowlist") ∷ []
    else (passed, "Receiver allowlist")
      ∷ line_if (not (check_stored_streams_allowlist e rows)) (failed, "Receiver allowlist")

abbrev pub check_forwarded_ips : Vars → Lines
check_forwarded_ips vars =
    one_of (getenv vars "SSF_FORWARDED_ALLOW_IPS" "127.0.0.1" == "*")
      (warned, "SSF_FORWARDED_ALLOW_IPS") (passed, "SSF_FORWARDED_ALLOW_IPS")

-- The URL is one that `from_env` has parsed.
abbrev pub warn_if_apple_scim_url_uses_appleaccount : Env → String → String → Lines
warn_if_apple_scim_url_uses_appleaccount e url_name url_val =
    line_if (safe_hostname e url_val == "appleaccount.apple.com") (warned, url_name)

abbrev pub check_scim_authorized : Probe → Lines
check_scim_authorized p = elim p.tokens [
  | none ↦ (warned, "Apple SCIM OAuth") ∷ []
  | some row ↦
      one_of (ltb p.now row.expires_at) (passed, "Apple SCIM OAuth") (warned, "Apple SCIM OAuth")
]

abbrev pub check_authentik_connectivity : Probe → Lines
check_authentik_connectivity p = elim p.authentik [
  | no_reply ↦ (warned, "Authentik API") ∷ []
  | reply status body ↦
      if status == 200
      then (passed, "Authentik API") ∷ []
      else one_of (status == 401 || status == 403) (failed, "Authentik API")
          (warned, "Authentik API")
]

abbrev pub apple_scim_checks : Env → Probe → List Lines
apple_scim_checks e p =
    ((passed, "Apple SCIM") ∷ [])
    ∷ one_of (is_set e.settings.apple_scim_group_id) (passed, "Apple SCIM group filter")
        (warned, "Apple SCIM group filter")
    ∷ one_of (is_set e.settings.apple_scim_alert_webhook_url) (passed, "Apple SCIM alerts")
        (warned, "Apple SCIM alerts")
    ∷ warn_if_apple_scim_url_uses_appleaccount e "APPLE_SCIM_AUTHORIZE_URL"
        e.settings.apple_scim_authorize_url
    ∷ warn_if_apple_scim_url_uses_appleaccount e "APPLE_SCIM_TOKEN_URL"
        e.settings.apple_scim_token_url
    ∷ check_scim_authorized p
    ∷ check_authentik_connectivity p
    ∷ []

abbrev pub check_apple_scim_enabled : Env → Probe → Lines
check_apple_scim_enabled e p = log_all (apple_scim_checks e p)

abbrev pub check_apple_scim : Env → Probe → Lines
check_apple_scim e p =
    if apple_scim_enabled e then check_apple_scim_enabled e p else (warned, "Apple SCIM") ∷ []

-- The lines of `run_preflight_checks`, check by check in their order.
abbrev pub preflight_checks : Env → Probe → List Lines
preflight_checks e p =
    log_ssf_issuer e
    ∷ log_ssf_base_url e
    ∷ log_management_token e
    ∷ log_webhook_auth e p.vars
    ∷ check_signing_key p
    ∷ check_jwks p
    ∷ log_database p.disk
    ∷ check_pii_pepper e
    ∷ log_receiver_allowlist e p.rows
    ∷ check_forwarded_ips p.vars
    ∷ check_apple_scim e p
    ∷ []

abbrev pub report : Env → Probe → Lines
report e p = log_all (preflight_checks e p)
