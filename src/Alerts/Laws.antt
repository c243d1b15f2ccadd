-- ===== src/Alerts/Laws.antt =====
-- How far apart the alerts of one event are.
use ssf_transmitter.Prelude.{
  ℕ, ◌+◌, String, ◌≡◌, ◌⊎◌, inl, inr, refl, ap, Bool, true, false, not, ◌||◌, ◌&&◌, none, some,
  List, [], ◌∷◌, leb, ◌==◌, string_eq, if◌then◌else◌, arith, eq_iff, Bool-cases, Option-cases, all,
  truthy, text_or_empty,
}
use ssf_transmitter.Environment.{Env}
use ssf_transmitter.Routes.AppleScim.{put_state}
use ssf_transmitter.Alerts.{
  Answer, answer, lost, Alert, Alerted, LastSent, alert_cooldown, alert_payload, is_cooling,
  last_of, send_alert,
}

-- A POST: its event, its time, and whether it was answered.
pub record Post : Type 0 where
  pub event : String
  pub time : ℕ
  pub is_answered : Bool

-- All POSTs, the last first.
abbrev pub Log : Type 0
Log = List Post

abbrev pub noted : Alert → Alerted → Log → Log
noted a done log = elim done.posted [
  | none ↦ log
  | some request ↦ record { event = a.event; time = a.now; is_answered = done.is_answered } ∷ log
]

-- Any number of calls, one after the other.
abbrev pub send_alerts : Env → List Alert → LastSent → Log → Log
send_alerts e [] last_sent log = log
send_alerts e (a ∷ calls) last_sent log =
    let done = send_alert e a last_sent in send_alerts e calls done.last_sent (noted a done log)

-- Every answered POST of the event lies a cooldown or more before the time.
abbrev pub is_past : String → ℕ → Log → Bool
is_past event now log =
    all (λ s. not (s.is_answered && s.event == event) || leb (s.time + alert_cooldown) now) log

-- Every POST comes a cooldown or more after each earlier one of its event that was answered.
abbrev pub is_spaced : Log → Bool
is_spaced [] = true
is_spaced (s ∷ log) = is_past s.event s.time log && is_spaced log

-- The times of the table are the last ones of the answered POSTs.
abbrev covers : LastSent → Log → Bool
covers last_sent log =
    all
      (λ s.
        not s.is_answered
        || elim (last_of s.event last_sent) [ none ↦ false | some last ↦ leb s.time last ])
      log

last_of-put_state :
    (event other : String) (now : ℕ) (last_sent : LastSent)
    → last_of event (put_state other now last_sent)
      ≡ (if other == event then some now else last_of event last_sent)
unfolding last_of put_state
last_of-put_state event other now [] = refl
last_of-put_state event other now (s ∷ last_sent) = ground (
  arith,
  eq_iff s.0 other,
  eq_iff s.0 event,
  eq_iff other event,
  last_of-put_state event other now last_sent,
)

-- An event that may be sent was sent a cooldown ago or more.
is_past_of_covers :
    (event : String) (now : ℕ) (last_sent : LastSent) (log : Log)
    → covers last_sent log ≡ true
    → is_cooling now (last_of event last_sent) ≡ false
    → is_past event now log ≡ true
unfolding is_cooling
is_past_of_covers event now last_sent [] h cool = refl
is_past_of_covers event now last_sent (s ∷ log) h cool =
    let rest = is_past_of_covers event now last_sent log (ground arith) cool in
    elim (Bool-cases (s.event == event)) [
      | inr other ↦ ground arith
      | inl same ↦
          let equal : last_of s.event last_sent ≡ last_of event last_sent =
            ap (λ k. last_of k last_sent) ((eq_iff s.event event).0 same) in
          elim (Option-cases (last_of event last_sent)) [
            | inl never ↦ ground arith
            | inr (last, sent) ↦ ground arith
          ]
    ]

covers-put_state :
    (event : String) (now : ℕ) (last_sent : LastSent) (log : Log)
    → covers last_sent log ≡ true
    → is_past event now log ≡ true
    → covers (put_state event now last_sent) log ≡ true
covers-put_state event now last_sent [] h past = refl
covers-put_state event now last_sent (s ∷ log) h past =
    let rest = covers-put_state event now last_sent log (ground arith) (ground arith) in
    let found = last_of-put_state s.event event now last_sent in
    ground (arith, eq_iff s.event event, eq_iff event s.event)

Answer-cases : (a : Answer) → ((b : Bool) × (a ≡ lost b)) ⊎ ((status : ℕ) × (a ≡ answer status))
Answer-cases (lost b) = inl (b, refl)
Answer-cases (answer status) = inr (status, refl)

abbrev IsKept : LastSent → Log → Type 0
IsKept last_sent log = (covers last_sent log ≡ true) × (is_spaced log ≡ true)

send_alert-IsKept :
    (e : Env) (a : Alert) (last_sent : LastSent) (log : Log)
    → IsKept last_sent log
    → IsKept (send_alert e a last_sent).last_sent (noted a (send_alert e a last_sent) log)
unfolding send_alert
send_alert-IsKept e a last_sent log (covered, spaced) =
    let url = text_or_empty e.settings.apple_scim_alert_webhook_url in
    let found = last_of-put_state a.event a.event a.now last_sent in
    let itself = (eq_iff a.event a.event).1 refl in
    elim (Bool-cases (truthy url)) [
      | inr unset ↦ (ground arith, ground arith)
      | inl set ↦ elim (Bool-cases (is_cooling a.now (last_of a.event last_sent))) [
        | inl cooling ↦ (ground arith, ground arith)
        | inr cool ↦
            let past = is_past_of_covers a.event a.now last_sent log covered cool in
            let still = covers-put_state a.event a.now last_sent log covered past in
            elim (Answer-cases (a.post url (alert_payload e a))) [
              | inl (arrived, failed) ↦ (ground arith, ground arith)
              | inr (status, read) ↦ (ground arith, ground arith)
            ]
      ]
    ]

send_alerts-spaced_from :
    (e : Env) (calls : List Alert) (last_sent : LastSent) (log : Log)
    → IsKept last_sent log
    → is_spaced (send_alerts e calls last_sent log) ≡ true
send_alerts-spaced_from e [] last_sent log kept = kept.1
send_alerts-spaced_from e (a ∷ calls) last_sent log kept =
    let done = send_alert e a last_sent in
    send_alerts-spaced_from e calls done.last_sent (noted a done log)
      (send_alert-IsKept e a last_sent log kept)

-- In calls that follow one another, whenever they come and whatever comes of their POSTs, each POST is
-- made at least an hour after every earlier one of the same event that was answered.
pub send_alerts-is_spaced :
    (e : Env) (calls : List Alert) → is_spaced (send_alerts e calls [] []) ≡ true
send_alerts-is_spaced e calls = send_alerts-spaced_from e calls [] [] (refl, refl)
