-- ===== src/Config/Laws.antt =====
-- What the settings that load satisfy.
use ssf_transmitter.Prelude.{
  ◌≤◌, ◌<◌, String, ◌≡◌, inl, inr, refl, true, false, not, ◌||◌, Option, some, List, arith,
  Bool-cases, truthy, text_or_empty, text_length, ◌==◌, string_eq, length_of_truthy, ltb, subst,
}
use ssf_transmitter.Result.{Result, Result-cases, ok, err, or_raise, value_error, ◌>>=◌}
use ssf_transmitter.Environment.{Env, Settings, ParsedUrl}
use ssf_transmitter.Database.{StreamRow}
use ssf_transmitter.Scim.Url.{rstrip_slash}
use ssf_transmitter.Startup.{
  Disk, run_preflight_checks, check_management_token, check_webhook_auth, check_database,
  check_receiver_allowlist,
}
use ssf_transmitter.Config.{
  Vars, getenv, is_on, is_log_level, is_update_mode, parse_https_url, parse_management_token,
  parse_webhook_auth_mode, parse_webhook_token, parse_webhook_secret, is_webhook_auth_mode,
  parse_log_level, parse_sync_interval, parse_apple_scim_update_mode,
  parse_apple_scim_allow_username_recovery,
}
use ssf_transmitter.Config.Load.{
  read_required, read_webhook, read_settings, from_env, log_level_var, read_alert_url,
  authorize_url, token_url,
}
use ssf_transmitter.Config.Parsers.{
  parse_https_url_lem, parse_webhook_auth_mode-known, parse_webhook_token-long,
  parse_webhook_secret-given, parse_management_token-long, parse_log_level-known,
  parse_apple_scim_update_mode-known, parse_sync_interval-positive,
}

-- A text of slashes alone is no HTTPS URL.
abbrev pub SlashesHaveNoScheme : Env → Type 0
SlashesHaveNoScheme e =
    (url : String) (parsed : ParsedUrl)
    → e.urlparse url ≡ some parsed
    → truthy (rstrip_slash url) ≡ false
    → (parsed.scheme == "https") ≡ false

-- The URLs that are read pass the checks of the start.
read_required-ok :
    (e : Env) (vars : Vars) (issuer base : String)
    → SlashesHaveNoScheme e
    → read_required e vars ≡ ok (issuer, base)
    → (truthy issuer ≡ true) × (truthy base ≡ true)
unfolding read_required
read_required-ok e vars issuer base slashes h =
    let first = text_or_empty (vars "SSF_ISSUER") in
    let second = text_or_empty (vars "SSF_BASE_URL") in
    elim (Result-cases (parse_https_url e first "SSF_ISSUER")) [
      | inr (x, failed) ↦ absurd (ground arith)
      | inl (url, read) ↦ elim (Result-cases (parse_https_url e second "SSF_BASE_URL")) [
        | inr (x, failed) ↦ absurd (ground arith)
        | inl (url', read') ↦
            let one = parse_https_url_lem e first "SSF_ISSUER" url read in
            let two = parse_https_url_lem e second "SSF_BASE_URL" url' read' in
            (
              ground arith,
              elim (Bool-cases (truthy (rstrip_slash url'))) [
                | inl given ↦ ground arith
                | inr bare ↦ absurd (ground (arith, slashes second two.1 two.2))
              ],
            )
      ]
    ]

-- The mode is known, and what it needs is given.
abbrev IsWebhook : String → Option String → String → Type 0
IsWebhook mode token secret =
    (is_webhook_auth_mode mode ≡ true)
    × ((mode == "bearer") ≡ true → ltb (text_length (text_or_empty token)) 32 ≡ false)
    × ((mode == "hmac") ≡ true → truthy secret ≡ true)

read_webhook-IsWebhook :
    (e : Env) (vars : Vars) (mode secret : String) (token : Option String)
    → read_webhook e vars ≡ ok (mode, token, secret)
    → IsWebhook mode token secret
unfolding read_webhook
read_webhook-IsWebhook e vars mode secret token h =
    let unsigned = is_on e vars "SSF_ALLOW_UNSIGNED_WEBHOOK" in
    elim (Result-cases (parse_webhook_auth_mode e (vars "SSF_WEBHOOK_AUTH_MODE") unsigned)) [
      | inr (x, failed) ↦ absurd (ground arith)
      | inl (m, read) ↦ elim (Result-cases (parse_webhook_token (vars "SSF_WEBHOOK_TOKEN") m)) [
        | inr (x, failed) ↦ absurd (ground arith)
        | inl (t, read_token) ↦
            elim (Result-cases (parse_webhook_secret (vars "SSF_WEBHOOK_SECRET") m)) [
              | inr (x, failed) ↦ absurd (ground arith)
              | inl (s, read_secret) ↦
                  let known =
                    parse_webhook_auth_mode-known e (vars "SSF_WEBHOOK_AUTH_MODE") unsigned m
                      read in
                  let long = parse_webhook_token-long (vars "SSF_WEBHOOK_TOKEN") t m read_token in
                  let given =
                    parse_webhook_secret-given (vars "SSF_WEBHOOK_SECRET") s m read_secret in
                  (ground arith, ground arith, ground arith)
            ]
      ]
    ]

-- What a chain returns, its last step returns.
after {ℓ κ} :
    {A : Type ℓ} {B : Type κ} (P : B → Type 0) (m : Result A) (k : A → Result B) (b : B)
    → ((a : A) → m ≡ ok a → k a ≡ ok b → P b)
    → (m >>= k) ≡ ok b
    → P b
after P (ok a) k b last h = last a refl h
after P (err x) k b last h = absurd (ground arith)

returned : {A : Type 0} (P : A → Type 0) (a b : A) → P a → ok a ≡ ok b → P b
returned P a b p same = subst P (ground arith) p

-- The settings hold what was read of the URLs and of webhooks, and the rest is in its range.
abbrev pub Keeps : String × String → String × Option String × String → Settings → Type 0
Keeps urls webhook s =
    (s.ssf_issuer ≡ urls.0)
    × (s.ssf_base_url ≡ urls.1)
    × (s.ssf_webhook_auth_mode ≡ webhook.0)
    × (s.ssf_webhook_token ≡ webhook.1)
    × (s.ssf_webhook_secret ≡ webhook.2)
    × (32 ≤ text_length s.ssf_management_token)
    × (is_log_level s.log_level ≡ true)
    × (0 < s.apple_scim_sync_interval)
    × (is_update_mode s.apple_scim_update_mode ≡ true)

read_settings-Keeps :
    (e : Env) (vars : Vars) (urls : String × String) (webhook : String × Option String × String)
    (s : Settings)
    → read_settings e vars urls webhook ≡ ok s
    → Keeps urls webhook s
unfolding read_settings
read_settings-Keeps e vars urls webhook s h =
    let P = Keeps urls webhook in
    let the_port =
      or_raise (e.int (getenv vars "SSF_CONTAINER_PORT" "8000"))
        (value_error "invalid literal for int()") in
    let the_interval = getenv vars "APPLE_SCIM_SYNC_INTERVAL" "3600" in
    let the_authorize = getenv vars "APPLE_SCIM_AUTHORIZE_URL" authorize_url in
    let the_token = getenv vars "APPLE_SCIM_TOKEN_URL" token_url in
    let the_mode = vars "APPLE_SCIM_UPDATE_MODE" in
    let the_recovery = vars "APPLE_SCIM_ALLOW_USERNAME_RECOVERY" in
    after P the_port _ s
      (λ port _.
        after P (parse_management_token (vars "SSF_MANAGEMENT_TOKEN")) _ s (λ management given.
          after P (parse_log_level e (log_level_var vars)) _ s (λ level leveled.
            after P (parse_sync_interval e the_interval) _ s (λ interval timed.
              after P (read_alert_url e vars) _ s (λ alert _.
                after P (parse_https_url e the_authorize "APPLE_SCIM_AUTHORIZE_URL") _ s
                  (λ authorize _.
                    after P (parse_https_url e the_token "APPLE_SCIM_TOKEN_URL") _ s (λ token _.
                      after P (parse_apple_scim_update_mode e the_mode) _ s (λ mode moded.
                        after P (parse_apple_scim_allow_username_recovery e the_recovery) _ s
                          (λ recovery _. returned P _ s (
                            refl,
                            refl,
                            refl,
                            refl,
                            refl,
                            parse_management_token-long (vars "SSF_MANAGEMENT_TOKEN") management
                                given,
                            parse_log_level-known e (log_level_var vars) level leveled,
                            parse_sync_interval-positive e the_interval interval timed,
                            parse_apple_scim_update_mode-known e the_mode mode moded,
                          ))))))))))
      h

-- Settings with what the checks of the start ask of them.
settings-pass :
    (e : Env) (s : Settings)
    → truthy s.ssf_issuer ≡ true
    → truthy s.ssf_base_url ≡ true
    → 32 ≤ text_length s.ssf_management_token
    → IsWebhook s.ssf_webhook_auth_mode s.ssf_webhook_token s.ssf_webhook_secret
    → (disk : Disk) (rows : Option (List StreamRow))
    → run_preflight_checks (record e { settings = s }) disk rows
      ≡ not (check_database disk || check_receiver_allowlist (record e { settings = s }) rows)
unfolding run_preflight_checks check_management_token check_webhook_auth is_webhook_auth_mode
settings-pass e s issuer base long webhook disk rows =
    let length_of_secret = length_of_truthy s.ssf_webhook_secret in ground arith

-- If no text of slashes alone is an HTTPS URL, settings that load pass every check of the start that
-- is about them alone, so that the start fails on the database or the allowlist of receivers or not at
-- all; their update mode and log level are known ones and a sync is at least one second after another.
pub from_env-run_preflight_checks :
    (e : Env) (vars : Vars) (s : Settings) (disk : Disk) (rows : Option (List StreamRow))
    → SlashesHaveNoScheme e
    → from_env e vars ≡ ok s
    → (run_preflight_checks (record e { settings = s }) disk rows
        ≡ not (check_database disk || check_receiver_allowlist (record e { settings = s }) rows))
      × (is_update_mode s.apple_scim_update_mode ≡ true)
      × (is_log_level s.log_level ≡ true)
      × (1 ≤ s.apple_scim_sync_interval)
unfolding from_env
from_env-run_preflight_checks e vars s disk rows slashes h =
    elim (Result-cases (read_required e vars)) [
      | inr (x, failed) ↦ absurd (ground arith)
      | inl (urls, read) ↦ elim (Result-cases (read_webhook e vars)) [
        | inr (x, failed) ↦ absurd (ground arith)
        | inl (webhook, read') ↦
            let given = read_required-ok e vars urls.0 urls.1 slashes read in
            let is_webhook = read_webhook-IsWebhook e vars webhook.0 webhook.2 webhook.1 read' in
            let keeps = read_settings-Keeps e vars urls webhook s (ground arith) in
            (
              settings-pass e s (ground arith) (ground arith) (ground arith)
                  (ground arith, ground arith, ground arith) disk rows,
              ground arith,
              ground arith,
              ground arith,
            )
      ]
    ]
