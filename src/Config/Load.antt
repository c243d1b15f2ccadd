-- ===== src/Config/Load.antt =====
-- app/config.py: `Settings.from_env`, and what `Settings` computes.
use Prim.Native.String.{◌++◌}
use ssf_transmitter.Prelude.{
  String, Bool, not, ◌||◌, Option, none, some, ◌==◌, string_eq, if◌then◌else◌, truthy,
  text_or_empty, starts_with, length, suc,
}
use ssf_transmitter.Result.{Result, ok, err, value_error, unexpected, raise_if, ◌>>=◌, ◌>>◌}
use ssf_transmitter.Value.{Fields, field, end, text, boolean, int, number, Value}
use ssf_transmitter.Environment.{Env, Settings, ℤ, pos, negsuc}
use ssf_transmitter.Result.{or_raise}
use ssf_transmitter.Scim.Url.{rstrip_slash}
use ssf_transmitter.Config.{
  Vars, getenv, non_empty, is_on, parse_https_url, parse_sync_interval,
  parse_apple_scim_update_mode, parse_apple_scim_allow_username_recovery, parse_management_token,
  parse_webhook_auth_mode, parse_webhook_token, parse_webhook_secret, parse_log_level,
}
use ssf_transmitter.Routes.AppleScim.{is_set, apple_scim_enabled}
use ssf_transmitter.Config.Hosts.{parse_allowed_receiver_hosts}

-- `raise RuntimeError(str(exc)) from exc`
abbrev pub reraise {ℓ} : {A : Type ℓ} → Result A → Result A
reraise (ok a) = ok a
reraise (err (value_error m)) = err unexpected
reraise (err x) = err x

-- SSF_ISSUER and SSF_BASE_URL, which have to be HTTPS URLs.
unfoldable pub read_required : Env → Vars → Result (String × String)
unfolding parse_https_url
read_required e vars = do
  let issuer = text_or_empty (vars "SSF_ISSUER")
  let base = text_or_empty (vars "SSF_BASE_URL")
  raise_if (not (truthy issuer) || not (truthy base)) unexpected
  issuer' ← reraise (parse_https_url e issuer "SSF_ISSUER")
  base' ← reraise (parse_https_url e base "SSF_BASE_URL")
  ok (issuer', rstrip_slash base')

-- The mode, the token and the secret of webhooks.
unfoldable pub read_webhook : Env → Vars → Result (String × Option String × String)
unfolding parse_webhook_auth_mode parse_webhook_token parse_webhook_secret
read_webhook e vars = do
  mode ←
      parse_webhook_auth_mode e (vars "SSF_WEBHOOK_AUTH_MODE")
        (is_on e vars "SSF_ALLOW_UNSIGNED_WEBHOOK")
  token ← parse_webhook_token (vars "SSF_WEBHOOK_TOKEN") mode
  secret ← parse_webhook_secret (vars "SSF_WEBHOOK_SECRET") mode
  ok (mode, token, secret)

-- The level, from SSF_LOG_LEVEL or LOG_LEVEL.
abbrev pub log_level_var : Vars → Option String
log_level_var vars = some (getenv vars "SSF_LOG_LEVEL" (getenv vars "LOG_LEVEL" "INFO"))

abbrev pub read_alert_url : Env → Vars → Result (Option String)
read_alert_url e vars = elim (non_empty (vars "APPLE_SCIM_ALERT_WEBHOOK_URL")) [
  | none ↦ ok none
  | some url ↦ elim (parse_https_url e url "APPLE_SCIM_ALERT_WEBHOOK_URL") [
    | ok url' ↦ ok (some url')
    | err x ↦ err x
  ]
]

-- `_strip_trailing_slash(raw) if raw else None`
abbrev pub stripped_url : Option String → Option String
stripped_url value = elim (non_empty value) [ none ↦ none | some url ↦ some (rstrip_slash url) ]

abbrev pub authorize_url : String
authorize_url = "https://appleid.apple.com/auth/oauth2/v2/authorize"

abbrev pub token_url : String
token_url = "https://appleid.apple.com/auth/oauth2/v2/token"

-- The settings, each read where the class is called with it.
unfoldable pub read_settings :
    Env → Vars → String × String → String × Option String × String → Result Settings
unfolding parse_https_url parse_sync_interval parse_apple_scim_update_mode
    parse_apple_scim_allow_username_recovery parse_management_token parse_log_level
    parse_allowed_receiver_hosts rstrip_slash
read_settings e vars urls webhook = do
  port ←
      or_raise (e.int (getenv vars "SSF_CONTAINER_PORT" "8000"))
        (value_error "invalid literal for int()")
  management ← parse_management_token (vars "SSF_MANAGEMENT_TOKEN")
  level ← parse_log_level e (log_level_var vars)
  interval ← parse_sync_interval e (getenv vars "APPLE_SCIM_SYNC_INTERVAL" "3600")
  alert ← read_alert_url e vars
  authorize ←
      parse_https_url e (getenv vars "APPLE_SCIM_AUTHORIZE_URL" authorize_url)
        "APPLE_SCIM_AUTHORIZE_URL"
  token ← parse_https_url e (getenv vars "APPLE_SCIM_TOKEN_URL" token_url) "APPLE_SCIM_TOKEN_URL"
  update_mode ← parse_apple_scim_update_mode e (vars "APPLE_SCIM_UPDATE_MODE")
  recovery ← parse_apple_scim_allow_username_recovery e (vars "APPLE_SCIM_ALLOW_USERNAME_RECOVERY")
  ok (record {
    ssf_issuer = urls.0;
    ssf_base_url = urls.1;
    ssf_root_path = getenv vars "SSF_ROOT_PATH" "";
    ssf_container_port = port;
    ssf_management_token = management;
    ssf_webhook_auth_mode = webhook.0;
    ssf_webhook_token = webhook.1;
    ssf_webhook_secret = webhook.2;
    log_pii = is_on e vars "SSF_LOG_PII";
    pii_pepper = getenv vars "SSF_PII_PEPPER" "";
    log_level = level;
    database_path = getenv vars "SSF_DATABASE_PATH" "/app/data/ssf.db";
    keys_dir = getenv vars "SSF_KEYS_DIR" "/app/keys";
    apple_scim_client_id = non_empty (vars "APPLE_SCIM_CLIENT_ID");
    apple_scim_client_secret = non_empty (vars "APPLE_SCIM_CLIENT_SECRET");
    authentik_url = stripped_url (vars "AUTHENTIK_URL");
    authentik_token = non_empty (vars "AUTHENTIK_TOKEN");
    apple_scim_group_id = non_empty (vars "APPLE_SCIM_GROUP_ID");
    apple_scim_sync_interval = interval;
    apple_scim_alert_webhook_url = alert;
    apple_scim_authorize_url = authorize;
    apple_scim_token_url = token;
    apple_scim_log_error_body = is_on e vars "APPLE_SCIM_LOG_ERROR_BODY";
    apple_scim_update_mode = update_mode;
    apple_scim_allow_username_recovery = recovery;
    ssf_allow_custom_issuer = is_on e vars "SSF_ALLOW_CUSTOM_ISSUER";
    ssf_log_color = is_on e vars "SSF_LOG_COLOR";
    ssf_log_receiver_error_body = is_on e vars "SSF_LOG_RECEIVER_ERROR_BODY";
    ssf_enable_openapi = is_on e vars "SSF_ENABLE_OPENAPI";
    ssf_allowed_receiver_hosts = parse_allowed_receiver_hosts e (vars "SSF_ALLOWED_RECEIVER_HOSTS");
    ssf_token_encryption_key = non_empty (vars "SSF_TOKEN_ENCRYPTION_KEY");
  })

unfoldable pub from_env : Env → Vars → Result Settings
unfolding read_required read_webhook read_settings
from_env e vars = do
  urls ← read_required e vars
  webhook ← read_webhook e vars
  read_settings e vars urls webhook

unfoldable pub public_url : Settings → String → String
unfolding starts_with
public_url settings path =
    settings.ssf_base_url ++ (if starts_with path "/" then path else "/" ++ path)

unfoldable pub allow_unsigned_webhook : Settings → Bool
allow_unsigned_webhook settings = settings.ssf_webhook_auth_mode == "unsigned"

-- A whole number as a value.
abbrev pub whole : Env → ℤ → Value
whole e (pos n) = int n
whole e (negsuc n) = number ("-" ++ e.show (int (suc n)))

unfoldable pub safe_log_dict : Env → Settings → Fields
unfolding apple_scim_enabled
safe_log_dict e s = field "ssf_issuer" (text s.ssf_issuer) (
    field "ssf_base_url" (text s.ssf_base_url) (
      field "ssf_root_path" (text s.ssf_root_path) (
        field "ssf_container_port" (whole e s.ssf_container_port) (
          field "database_path" (text s.database_path) (
            field "keys_dir" (text s.keys_dir) (
              field "log_level" (text s.log_level) (
                field "ssf_webhook_auth_mode" (text s.ssf_webhook_auth_mode) (
                  field "apple_scim_enabled"
                    (boolean (apple_scim_enabled (record e { settings = s })))
                    (field "apple_scim_group_filter_enabled"
                      (boolean (is_set s.apple_scim_group_id))
                      (field "apple_scim_group_id" (text (text_or_empty s.apple_scim_group_id)) (
                        field "apple_scim_update_mode" (text s.apple_scim_update_mode) (
                          field "apple_scim_log_error_body" (boolean s.apple_scim_log_error_body) (
                            field "apple_scim_allow_username_recovery"
                              (boolean s.apple_scim_allow_username_recovery)
                              (field "ssf_enable_openapi" (boolean s.ssf_enable_openapi) (
                                field "ssf_allowed_receiver_hosts_count"
                                  (int (length s.ssf_allowed_receiver_hosts))
                                  (field "token_encryption_key_dedicated"
                                    (boolean (is_set s.ssf_token_encryption_key))
                                    end))))))))))))))))
