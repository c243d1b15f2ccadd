-- ===== src/Alerts.antt =====
-- app/alerts.py: the alerts on Apple SCIM and their cooldown. Times are milliseconds of the monotonic
-- clock. What is only logged is left out.
pub mod Laws
use ssf_transmitter.Prelude.{
  ℕ, ◌-◌, String, Bool, true, false, not, ◌&&◌, Option, none, some, List, [], ◌∷◌, ltb, ◌==◌,
  string_eq, if◌then◌else◌, truthy, text_or_empty, first_where,
}
use ssf_transmitter.Value.{Fields, field, end, text}
use ssf_transmitter.Environment.{Env}
use ssf_transmitter.Routes.AppleScim.{put_state}
use ssf_transmitter.Config.Load.{public_url}

abbrev pub alert_cooldown : ℕ
alert_cooldown = 3_600_000

-- `_last_sent`
abbrev pub LastSent : Type 0
LastSent = List (String × ℕ)

-- `_last_sent.get(event)`
unfoldable pub last_of : String → LastSent → Option ℕ
last_of event [] = none
last_of event (s ∷ last_sent) = if s.0 == event then some s.1 else last_of event last_sent

-- What comes of a POST: the status of an answer, or an exception, whether the alert arrived or not, as
-- when the answer does not come in time.
pub data Answer : Type 0 where
  answer : ℕ → Answer
  lost : Bool → Answer

-- A call, with the clocks and what its POST meets.
pub record Alert : Type 0 where
  pub event : String
  pub message : String
  pub severity : String
  pub now : ℕ
  pub timestamp : String
  pub post : String → Fields → Answer

unfoldable pub alert_payload : Env → Alert → Fields
unfolding public_url
alert_payload e a = field "event" (text a.event) (
    field "severity" (text a.severity) (
      field "message" (text a.message) (
        field "authorize_url" (text (public_url e.settings "/apple-scim/authorize"))
          (field "timestamp" (text a.timestamp) end))))

unfoldable pub is_cooling : ℕ → Option ℕ → Bool
is_cooling now none = false
is_cooling now (some last) = ltb (now - last) alert_cooldown

-- What was posted, whether it arrived and whether the server answered, and the times that are left.
pub record Alerted : Type 0 where
  pub posted : Option (String × Fields)
  pub arrived : Bool
  pub is_answered : Bool
  pub last_sent : LastSent

-- The cooldown starts with an answer of any status, and with that alone.
abbrev pub answered : Alert → String → Fields → LastSent → Answer → Alerted
answered a url payload last_sent (answer status) = record {
  posted = some (url, payload);
  arrived = true;
  is_answered = true;
  last_sent = put_state a.event a.now last_sent;
}
answered a url payload last_sent (lost arrived) = record {
  posted = some (url, payload);
  arrived = arrived;
  is_answered = false;
  last_sent = last_sent;
}

abbrev pub silent : LastSent → Alerted
silent last_sent = record {
  posted = none;
  arrived = false;
  is_answered = false;
  last_sent = last_sent;
}

unfoldable pub send_alert : Env → Alert → LastSent → Alerted
unfolding alert_payload is_cooling last_of
send_alert e a last_sent =
    let url = text_or_empty e.settings.apple_scim_alert_webhook_url in
    if not (truthy url)
    then silent last_sent
    else if is_cooling a.now (last_of a.event last_sent)
    then silent last_sent
    else answered a url (alert_payload e a) last_sent (a.post url (alert_payload e a))
