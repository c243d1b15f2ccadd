-- ===== src/Config/Parsers.antt =====
-- What the parsers of settings return.
use ssf_transmitter.Prelude.{
  ℕ, zero, suc, ◌≤◌, ◌<◌, String, ◌≡◌, inl, inr, refl, Bool, true, false, Option, some, arith,
  Option-cases, truthy, text_or_empty, text_length, ◌==◌, string_eq, ltb, subst,
}
use ssf_transmitter.Result.{ok}
use ssf_transmitter.Environment.{Env, ParsedUrl, ℤ, pos, negsuc}
use ssf_transmitter.Config.{
  long_enough, is_https, interval_of, is_log_level, is_update_mode, parse_https_url,
  parse_management_token, parse_webhook_auth_mode, parse_webhook_token, parse_webhook_secret,
  is_webhook_auth_mode, parse_log_level, parse_sync_interval, parse_apple_scim_update_mode,
}

pub long_enough_lem :
    (value : Option String) (token : String)
    → long_enough value ≡ ok token
    → (token ≡ text_or_empty value) × (ltb (text_length token) 32 ≡ false)
long_enough_lem value token h = (ground arith, ground arith)

-- A URL that is parsed is returned as it is, and is an HTTPS URL.
pub parse_https_url_lem :
    (e : Env) (value env_name url : String)
    → parse_https_url e value env_name ≡ ok url
    → (url ≡ value)
      × (parsed : ParsedUrl) × (e.urlparse value ≡ some parsed)
      × (is_https parsed ≡ true)
unfolding parse_https_url
parse_https_url_lem e value env_name url h = elim (Option-cases (e.urlparse value)) [
  | inl malformed ↦ absurd (ground arith)
  | inr (parsed, parses) ↦ (ground arith, parsed, parses, ground arith)
]

pub parse_webhook_auth_mode-known :
    (e : Env) (value : Option String) (unsigned : Bool) (mode : String)
    → parse_webhook_auth_mode e value unsigned ≡ ok mode
    → is_webhook_auth_mode mode ≡ true
unfolding parse_webhook_auth_mode is_webhook_auth_mode
parse_webhook_auth_mode-known e value true mode h =
    let same : "unsigned" ≡ mode = ground arith in
    subst (λ m. is_webhook_auth_mode m ≡ true) same refl
parse_webhook_auth_mode-known e value false mode h = ground arith

pub parse_webhook_token-long :
    (value token : Option String) (mode : String)
    → parse_webhook_token value mode ≡ ok token
    → (mode == "bearer") ≡ true
    → ltb (text_length (text_or_empty token)) 32 ≡ false
unfolding parse_webhook_token
parse_webhook_token-long value token mode h bearer = ground arith

pub parse_webhook_secret-given :
    (value : Option String) (secret mode : String)
    → parse_webhook_secret value mode ≡ ok secret
    → (mode == "hmac") ≡ true
    → truthy secret ≡ true
unfolding parse_webhook_secret
parse_webhook_secret-given value secret mode h hmac = ground arith

pub parse_management_token-long :
    (value : Option String) (token : String)
    → parse_management_token value ≡ ok token
    → 32 ≤ text_length token
unfolding parse_management_token
parse_management_token-long value token h = ground (arith, long_enough_lem value token h)

pub parse_log_level-known :
    (e : Env) (value : Option String) (level : String)
    → parse_log_level e value ≡ ok level
    → is_log_level level ≡ true
unfolding parse_log_level
parse_log_level-known e value level h = ground arith

pub parse_apple_scim_update_mode-known :
    (e : Env) (value : Option String) (mode : String)
    → parse_apple_scim_update_mode e value ≡ ok mode
    → is_update_mode mode ≡ true
unfolding parse_apple_scim_update_mode
parse_apple_scim_update_mode-known e value mode h = ground arith

interval_of-positive :
    (e : Env) (n : ℤ) (interval : ℕ) → interval_of e n ≡ ok interval → 0 < interval
unfolding interval_of
interval_of-positive e (pos (suc n)) interval h = ground arith
interval_of-positive e (pos zero) interval h = absurd (ground arith)
interval_of-positive e (negsuc n) interval h = absurd (ground arith)

pub parse_sync_interval-positive :
    (e : Env) (value : String) (interval : ℕ)
    → parse_sync_interval e value ≡ ok interval
    → 0 < interval
unfolding parse_sync_interval
parse_sync_interval-positive e value interval h = elim (Option-cases (e.int value)) [
  | inl malformed ↦ absurd (ground arith)
  | inr (n, read) ↦ interval_of-positive e n interval (ground arith)
]
