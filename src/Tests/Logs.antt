-- ===== src/Tests/Logs.antt =====
-- Theorems on what is logged and alerted, at concrete inputs.
use ssf_transmitter.Prelude.{ℕ, ◌≡◌, refl, true, false, some, List, [], ◌∷◌, text_length}
use ssf_transmitter.Value.{Value, Fields, text, int, obj, field, end}
use ssf_transmitter.Security.Log.{
  Redaction, take_text, remove_control, sanitize_for_log, redact_text, sanitize, is_sensitive_key,
}
use ssf_transmitter.Environment.{Env}
use ssf_transmitter.Alerts.{
  Answer, answer, lost, Alert, send_alert, alert_payload, is_cooling, last_of,
}
use ssf_transmitter.Alerts.Laws.{send_alerts, is_spaced, send_alerts-is_spaced}
use ssf_transmitter.Config.Load.{public_url}
use ssf_transmitter.Routes.AppleScim.{put_state}
use ssf_transmitter.Tests.Setting.{settings, env}

is_cut : sanitize_for_log env (text "a\r\nbcd") 3 ≡ "abc...[truncated]"
unfolding sanitize_for_log remove_control take_text text_length
is_cut = refl

abbrev redaction : Redaction
redaction = record { encode = λ s. []; sub_emails = λ f s. s; log_pii = false; pii_key = "pepper" }

abbrev reply : Fields
reply = field "Access_Token" (text "secret") (field "code" (int 3) end)

-- An environment that finds the reply in every text.
abbrev reading : Env
reading = record env { lower = λ s. "access_token"; loads = λ s. some (obj reply) }

is_redacted :
    sanitize reading redaction (obj (field "Access_Token" (text "secret") end))
    ≡ obj (field "Access_Token" (text "[redacted]") end)
unfolding sanitize redact_text is_sensitive_key
is_redacted = refl

abbrev alerting : Env
alerting = record env {
  settings = record settings { apple_scim_alert_webhook_url = some "https://alerts.example" };
}

abbrev alert : ℕ → Answer → Alert
alert now met = record {
  event = "scim_no_valid_token";
  message = "no token";
  severity = "error";
  now = now;
  timestamp = "";
  post = λ url payload. met;
}

abbrev calls : List Alert
calls =
    alert 5 (lost true)
    ∷ alert 10 (answer 200)
    ∷ alert 20 (answer 200)
    ∷ alert 3_600_010 (answer 500)
    ∷ []

-- The first call arrives without an answer and holds back none; the third is inside the cooldown of the
-- second.
are_sent :
    send_alerts alerting calls [] []
    ≡ record { event = "scim_no_valid_token"; time = 3_600_010; is_answered = true }
      ∷ record { event = "scim_no_valid_token"; time = 10; is_answered = true }
      ∷ record { event = "scim_no_valid_token"; time = 5; is_answered = false }
      ∷ []
unfolding send_alert alert_payload is_cooling last_of put_state public_url
are_sent = refl

send_alerts-is_spaced_example : is_spaced (send_alerts alerting calls [] []) ≡ true
send_alerts-is_spaced_example = send_alerts-is_spaced alerting calls
