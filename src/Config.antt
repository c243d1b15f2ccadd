-- ===== src/Config.antt =====
-- app/config.py: the settings that are read from the environment variables, and the values made of
-- them. A RuntimeError is `unexpected`, without its text. After either error the process exits.
pub mod Hosts
pub mod Load
pub mod Parsers
pub mod Laws
use Prim.Native.String.{◌++◌}
use ssf_transmitter.Prelude.{
  ℕ, suc, contains, String, Bool, true, false, not, ◌&&◌, ◌||◌, Option, none, some, ltb, ◌==◌,
  nat_eq, string_eq, if◌then◌else◌, truthy, text_or_empty, text_length, starts_with, strip, or_text,
}
use ssf_transmitter.Result.{
  Result, ok, err, value_error, unexpected, raise_if, or_raise, ◌>>=◌, ◌>>◌,
}
use ssf_transmitter.Value.{int}
use ssf_transmitter.Environment.{Env, Settings, ParsedUrl, ℤ, pos, negsuc}
use ssf_transmitter.Scim.Url.{rstrip_slash}

-- `_HealthcheckFilter`: whether a line of the access log is kept.
unfoldable pub filter : String → Bool
unfolding contains
filter msg = not (contains "127.0.0.1" msg && contains "/jwks.json" msg)

-- `os.getenv` with a default, and `os.getenv(name) or None`
abbrev pub Vars : Type 0
Vars = String → Option String

abbrev pub getenv : Vars → String → String → String
getenv vars name default = elim (vars name) [ none ↦ default | some value ↦ value ]

abbrev pub non_empty : Option String → Option String
non_empty none = none
non_empty (some value) = if truthy value then some value else none

-- `value or default`
abbrev pub or_default : Option String → String → String
or_default value default = or_text (text_or_empty value) default

-- `os.getenv(name, "false").lower() == "true"`
abbrev pub is_on : Env → Vars → String → Bool
is_on e vars name = e.lower (getenv vars name "false") == "true"

abbrev pub is_https : ParsedUrl → Bool
is_https parsed = parsed.scheme == "https" && truthy (text_or_empty parsed.hostname)

unfoldable pub parse_https_url : Env → String → String → Result String
parse_https_url e value env_name = do
  parsed ← or_raise (e.urlparse value) (value_error "Invalid URL")
  raise_if (not (is_https parsed))
      (value_error (env_name ++ (" must be a valid HTTPS URL, got " ++ e.repr value)))
  ok value

unfoldable pub interval_of : Env → ℤ → Result ℕ
interval_of e (pos (suc n)) = ok (suc n)
interval_of e (pos _) = err (value_error "APPLE_SCIM_SYNC_INTERVAL must be >= 1 second, got 0")
interval_of e (negsuc n) =
    err
      (value_error ("APPLE_SCIM_SYNC_INTERVAL must be >= 1 second, got -" ++ e.show (int (suc n))))

unfoldable pub parse_sync_interval : Env → String → Result ℕ
unfolding interval_of
parse_sync_interval e value = do
  interval ← or_raise (e.int value) (value_error "invalid literal for int()")
  interval_of e interval

unfoldable pub is_update_mode : String → Bool
is_update_mode mode =
    mode == "patch_all"
    || mode == "external_id_only"
    || mode == "emails_only"
    || mode == "username_only"
    || mode == "replace_all"

unfoldable pub parse_apple_scim_update_mode : Env → Option String → Result String
unfolding is_update_mode strip
parse_apple_scim_update_mode e value = do
  let mode = e.lower (strip (or_default value "patch_all"))
  raise_if (not (is_update_mode mode)) (
      value_error
        "APPLE_SCIM_UPDATE_MODE must be one of: emails_only, external_id_only, patch_all, replace_all, username_only")
  ok mode

unfoldable pub parse_apple_scim_allow_username_recovery : Env → Option String → Result Bool
unfolding strip
parse_apple_scim_allow_username_recovery e none = ok false
parse_apple_scim_allow_username_recovery e (some value) = do
  let normalized = e.lower (strip value)
  raise_if (not (normalized == "true" || normalized == "false"))
      (value_error "APPLE_SCIM_ALLOW_USERNAME_RECOVERY must be true or false")
  ok (normalized == "true")

-- A secret of at least 32 characters.
abbrev pub long_enough : Option String → Result String
long_enough value = do
  raise_if (not (truthy (text_or_empty value))) unexpected
  raise_if (ltb (text_length (text_or_empty value)) 32) unexpected
  ok (text_or_empty value)

unfoldable pub parse_management_token : Option String → Result String
unfolding text_length
parse_management_token value = long_enough value

unfoldable pub is_webhook_auth_mode : String → Bool
is_webhook_auth_mode mode = mode == "bearer" || mode == "hmac" || mode == "unsigned"

unfoldable pub parse_webhook_auth_mode : Env → Option String → Bool → Result String
unfolding is_webhook_auth_mode strip
parse_webhook_auth_mode e value true = ok "unsigned"
parse_webhook_auth_mode e value false = do
  let mode = strip (e.lower (or_default value "bearer"))
  raise_if (not (is_webhook_auth_mode mode)) unexpected
  ok mode

unfoldable pub parse_webhook_token : Option String → String → Result (Option String)
unfolding text_length
parse_webhook_token value mode =
    if not (mode == "bearer")
    then ok (non_empty value)
    else long_enough value >>= λ token. ok (some token)

unfoldable pub parse_webhook_secret : Option String → String → Result String
parse_webhook_secret value mode =
    if mode == "hmac" && not (truthy (text_or_empty value))
    then err unexpected
    else ok (text_or_empty value)

unfoldable pub is_log_level : String → Bool
is_log_level level =
    level == "DEBUG"
    || level == "INFO"
    || level == "WARNING"
    || level == "ERROR"
    || level == "CRITICAL"

unfoldable pub parse_log_level : Env → Option String → Result String
unfolding is_log_level
parse_log_level e value = do
  let level = e.upper (or_default value "INFO")
  raise_if (not (is_log_level level)) (
      value_error (
        "SSF_LOG_LEVEL must be one of CRITICAL, DEBUG, ERROR, INFO, WARNING, got " ++ e.repr level))
  ok level
