-- ===== src/Startup/Report/Laws.antt =====
-- The report of the checks tells whether the start fails.
use ssf_transmitter.Prelude.{
  String, ◌≡◌, ◌∙◌, refl, inl, inr, Bool, true, false, not, ◌&&◌, ◌||◌, List, [], ◌∷◌, ◌++◌,
  contains, ◌==◌, string_eq, nat_eq, any, arith, Bool-cases,
}
use ssf_transmitter.Environment.{Env}
use ssf_transmitter.Scim.Url.{rstrip_slash}
use ssf_transmitter.Routes.AppleScim.{is_set, apple_scim_enabled}
use ssf_transmitter.Startup.{
  run_preflight_checks, check_ssf_issuer, check_ssf_base_url, check_management_token,
  check_webhook_auth, check_database, check_receiver_allowlist,
}
use ssf_transmitter.Startup.Report.{
  passed, warned, failed, Line, Lines, line_if, one_of, log_all, Probe, log_ssf_issuer,
  log_ssf_base_url, log_management_token, log_webhook_auth, check_signing_key, check_jwks,
  log_database, check_pii_pepper, log_receiver_allowlist, check_forwarded_ips,
  check_scim_authorized, warn_if_apple_scim_url_uses_appleaccount, check_authentik_connectivity,
  apple_scim_checks, check_apple_scim_enabled, check_apple_scim, preflight_checks, report,
}

-- A line that reports a failure, but for that of the probe of Authentik.
abbrev pub is_fatal : Line → Bool
is_fatal (failed, about) = not (about == "Authentik API")
is_fatal (passed, about) = false
is_fatal (warned, about) = false

any-append : (xs ys : Lines) → any is_fatal (xs ++ ys) ≡ (any is_fatal xs || any is_fatal ys)
any-append [] ys = refl
any-append (x ∷ xs) ys = ground (arith, any-append xs ys)

-- The lines of many checks have a fatal one when those of one of them do.
any-log_all :
    (parts : List Lines) → any is_fatal (log_all parts) ≡ any (λ part. any is_fatal part) parts
any-log_all [] = refl
any-log_all (part ∷ rest) = rw (any-append part (log_all rest), any-log_all rest) refl

line_if-fatal : (b : Bool) (line : Line) → any is_fatal (line_if b line) ≡ (b && is_fatal line)
line_if-fatal true line = ground arith
line_if-fatal false line = refl

one_of-fatal :
    (b : Bool) (line other : Line)
    → any is_fatal (one_of b line other) ≡ (b && is_fatal line || not b && is_fatal other)
one_of-fatal true line other = ground arith
one_of-fatal false line other = ground arith

log_ssf_issuer-fatal : (e : Env) → any is_fatal (log_ssf_issuer e) ≡ check_ssf_issuer e
log_ssf_issuer-fatal e =
    let issuer = e.settings.ssf_issuer in
    let differs =
      line_if (not (rstrip_slash issuer == rstrip_slash e.settings.ssf_base_url))
        (warned, "SSF_ISSUER") in
    let odd = line_if (contains "/application/o/" issuer) (warned, "SSF_ISSUER") in
    let joined = any-append differs odd in
    let one =
      line_if-fatal (not (rstrip_slash issuer == rstrip_slash e.settings.ssf_base_url))
        (warned, "SSF_ISSUER") in
    let two = line_if-fatal (contains "/application/o/" issuer) (warned, "SSF_ISSUER") in
    ground arith

log_webhook_auth-fatal :
    (e : Env) (p : Probe) → any is_fatal (log_webhook_auth e p.vars) ≡ check_webhook_auth e
unfolding check_webhook_auth
log_webhook_auth-fatal e p = ground arith

log_database-fatal : (p : Probe) → any is_fatal (log_database p.disk) ≡ check_database p.disk
unfolding check_database
log_database-fatal p = ground arith

log_receiver_allowlist-fatal :
    (e : Env) (p : Probe)
    → any is_fatal (log_receiver_allowlist e p.rows) ≡ check_receiver_allowlist e p.rows
unfolding log_receiver_allowlist check_receiver_allowlist
log_receiver_allowlist-fatal e p = ground arith

quiet_pair :
    (b : Bool) (about : String) → any is_fatal (one_of b (passed, about) (warned, about)) ≡ false
quiet_pair true about = refl
quiet_pair false about = refl

warn-quiet :
    (e : Env) (name url : String)
    → any is_fatal (warn_if_apple_scim_url_uses_appleaccount e name url) ≡ false
warn-quiet e name url = ground arith

check_scim_authorized-quiet : (p : Probe) → any is_fatal (check_scim_authorized p) ≡ false
check_scim_authorized-quiet p = ground arith

check_authentik_connectivity-quiet :
    (p : Probe) → any is_fatal (check_authentik_connectivity p) ≡ false
check_authentik_connectivity-quiet p = ground arith

check_signing_key-quiet : (p : Probe) → any is_fatal (check_signing_key p) ≡ false
check_signing_key-quiet p = ground arith

check_jwks-quiet : (p : Probe) → any is_fatal (check_jwks p) ≡ false
check_jwks-quiet p = ground arith

check_pii_pepper-quiet : (e : Env) → any is_fatal (check_pii_pepper e) ≡ false
check_pii_pepper-quiet e = ground arith

check_forwarded_ips-quiet : (p : Probe) → any is_fatal (check_forwarded_ips p.vars) ≡ false
check_forwarded_ips-quiet p = ground arith

log_ssf_base_url-fatal : (e : Env) → any is_fatal (log_ssf_base_url e) ≡ check_ssf_base_url e
log_ssf_base_url-fatal e = ground arith

log_management_token-fatal :
    (e : Env) → any is_fatal (log_management_token e) ≡ check_management_token e
unfolding check_management_token
log_management_token-fatal e = ground arith

check_apple_scim_enabled-quiet :
    (e : Env) (p : Probe) → any is_fatal (check_apple_scim_enabled e p) ≡ false
check_apple_scim_enabled-quiet e p =
    any-log_all (apple_scim_checks e p)
    ∙ rw
        (
          quiet_pair (is_set e.settings.apple_scim_group_id) "Apple SCIM group filter",
          quiet_pair (is_set e.settings.apple_scim_alert_webhook_url) "Apple SCIM alerts",
          warn-quiet e "APPLE_SCIM_AUTHORIZE_URL" e.settings.apple_scim_authorize_url,
          warn-quiet e "APPLE_SCIM_TOKEN_URL" e.settings.apple_scim_token_url,
          check_scim_authorized-quiet p,
          check_authentik_connectivity-quiet p,
        )
        refl

check_apple_scim-quiet : (e : Env) (p : Probe) → any is_fatal (check_apple_scim e p) ≡ false
check_apple_scim-quiet e p = elim (Bool-cases (apple_scim_enabled e)) [
  | inr disabled ↦ rw disabled refl
  | inl enabled ↦ rw enabled (check_apple_scim_enabled-quiet e p)
]

or_of_six :
    (a b c d f g : Bool)
    → (a || (b || (c || (d || (f || (g || false)))))) ≡ not (not (a || b || c || d || f || g))
or_of_six a b c d f g = ground arith

-- A line that reports a failure, other than one of the probe of Authentik, is logged exactly when the
-- checks fail the start.
pub report_iff :
    (e : Env) (p : Probe) → any is_fatal (report e p) ≡ not (run_preflight_checks e p.disk p.rows)
unfolding run_preflight_checks
report_iff e p =
    any-log_all (preflight_checks e p)
    ∙ rw
        (
          log_ssf_issuer-fatal e,
          log_ssf_base_url-fatal e,
          log_management_token-fatal e,
          log_webhook_auth-fatal e p,
          check_signing_key-quiet p,
          check_jwks-quiet p,
          log_database-fatal p,
          check_pii_pepper-quiet e,
          log_receiver_allowlist-fatal e p,
          check_forwarded_ips-quiet p,
          check_apple_scim-quiet e p,
        )
        (or_of_six (check_ssf_issuer e) (check_ssf_base_url e) (check_management_token e)
          (check_webhook_auth e) (check_database p.disk) (check_receiver_allowlist e p.rows))
