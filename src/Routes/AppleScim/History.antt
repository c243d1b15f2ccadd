-- ===== src/Routes/AppleScim/History.antt =====
-- app/routes/apple_scim.py: any sequence of authorizations and callbacks, and what happens to
-- the states in it.
use ssf_transmitter.Prelude.{
  ℕ, ◌-◌, Option, String, ◌≡◌, inl, inr, refl, subst, Bool, true, false, not, ◌&&◌, ◌||◌, List, [],
  ◌∷◌, arith, eq_iff, Bool-cases, ltb, ◌==◌, string_eq, nat_eq, delete_where, text_or_empty,
  if◌then◌else◌,
}
use ssf_transmitter.Result.{Result, Result-cases, ok, err}
use ssf_transmitter.Value.{Value}
use ssf_transmitter.Environment.{Env}
use ssf_transmitter.Database.{Db}
use ssf_transmitter.Routes.AppleScim.{
  state_ttl, States, cleanup_expired_states, is_pending_state, put_state, add_state, consume_state,
  is_valid_state, Callback, exchange_reply, claim, callback, is_set, apple_scim_enabled,
}
use ssf_transmitter.Routes.AppleScim.Laws.{
  is_recent, is_pending_state-delete, claim-accepts, callback-claim,
}
use ssf_transmitter.Routes.AppleScim.Sync.{authorize}

-- What happens to a state: it is given out, at a time, or a callback with it is accepted.
pub data Event : Type 0 where
  issued : String → ℕ → Event
  accepted : String → Event

-- The last event first.
abbrev pub Log : Type 0
Log = List Event

-- The state was last given out at most ten minutes ago, and was not accepted since.
abbrev pub is_open : ℕ → String → Log → Bool
is_open now state [] = false
is_open now state (issued s time ∷ log) =
    let rest = is_open now state log in
    if s == state then not (ltb state_ttl (now - time)) else rest
is_open now state (accepted s ∷ log) =
    let rest = is_open now state log in if s == state then false else rest

-- The two routes that change the states.
pub data Call : Type 0 where
  authorizes : ℕ → String → Call
  calls_back : Callback → Call

-- The states and the tables after some calls, and what has happened to the states.
pub record History : Type 0 where
  pub states : States
  pub db : Db
  pub log : Log

abbrev note_issue : String → ℕ → Result String → Log → Log
note_issue state now (ok url) log = issued state now ∷ log
note_issue state now (err x) log = log

abbrev note_acceptance : String → Result (ℕ × Bool) → Log → Log
note_acceptance state (ok tokens) log = accepted state ∷ log
note_acceptance state (err x) log = log

module _ (e : Env) (int : Value → Option ℕ) (urlencode : List (String × String) → String) where
  -- A call at the route that it is for.
  abbrev pub after_call : Call → History → History
  after_call (authorizes now state) h =
      let done = authorize e urlencode now state h.states in
      record { states = done.1; db = h.db; log = note_issue state now done.0 h.log }
  after_call (calls_back c) h =
      let done = callback e int c h.states h.db in
      record {
        states = done.states;
        db = done.db;
        log = note_acceptance (text_or_empty c.state) done.result h.log;
      }

  -- Calls in their order.
  abbrev pub after_calls : List Call → History → History
  after_calls [] h = h
  after_calls (call ∷ calls) h = after_calls calls (after_call call h)

-- A process that has just started.
abbrev pub empty_history : Db → History
empty_history db = record { states = []; db = db; log = [] }

-- The state was last given out at this time, and was not accepted since.
abbrev is_last_issue : String → ℕ → Log → Bool
is_last_issue state time [] = false
is_last_issue state time (issued s u ∷ log) =
    let rest = is_last_issue state time log in if s == state then u == time else rest
is_last_issue state time (accepted s ∷ log) =
    let rest = is_last_issue state time log in if s == state then false else rest

-- Each pending state stands once, under the time at which it was last given out, and is unused.
abbrev tracks : States → Log → Bool
tracks [] log = true
tracks (s ∷ states) log =
    not (is_pending_state s.0 states) && (is_last_issue s.0 s.1 log && tracks states log)

is_pending_state-delete_where :
    (p : String × ℕ → Bool) (state : String) (states : States)
    → is_pending_state state states ≡ false
    → is_pending_state state (delete_where p states) ≡ false
unfolding is_pending_state
is_pending_state-delete_where p state [] h = refl
is_pending_state-delete_where p state (s ∷ states) h =
    ground (arith, is_pending_state-delete_where p state states)

tracks-delete_where :
    (p : String × ℕ → Bool) (states : States) (log : Log)
    → tracks states log ≡ true
    → tracks (delete_where p states) log ≡ true
tracks-delete_where p [] log h = refl
tracks-delete_where p (s ∷ states) log h =
    ground (arith, tracks-delete_where p states log, is_pending_state-delete_where p s.0 states)

-- What happens to a state that is not pending does not matter to the others.
tracks-issued :
    (state : String) (now : ℕ) (states : States) (log : Log)
    → is_pending_state state states ≡ false
    → tracks states log ≡ true
    → tracks states (issued state now ∷ log) ≡ true
unfolding is_pending_state
tracks-issued state now [] log other h = refl
tracks-issued state now (s ∷ states) log other h =
    ground (arith, tracks-issued state now states log, eq_iff s.0 state, eq_iff state s.0)

tracks-accepted :
    (state : String) (states : States) (log : Log)
    → is_pending_state state states ≡ false
    → tracks states log ≡ true
    → tracks states (accepted state ∷ log) ≡ true
unfolding is_pending_state
tracks-accepted state [] log other h = refl
tracks-accepted state (s ∷ states) log other h =
    ground (arith, tracks-accepted state states log, eq_iff s.0 state, eq_iff state s.0)

is_pending_state-put_state :
    (state other : String) (now : ℕ) (states : States)
    → is_pending_state state (put_state other now states)
      ≡ (other == state || is_pending_state state states)
unfolding is_pending_state put_state
is_pending_state-put_state state other now [] = refl
is_pending_state-put_state state other now (s ∷ states) = ground (
  arith,
  eq_iff s.0 other,
  eq_iff s.0 state,
  eq_iff other state,
  is_pending_state-put_state state other now states,
)

tracks-put_state :
    (state : String) (now : ℕ) (states : States) (log : Log)
    → tracks states log ≡ true
    → tracks (put_state state now states) (issued state now ∷ log) ≡ true
unfolding put_state is_pending_state
tracks-put_state state now [] log h = ground (arith, eq_iff state state)
tracks-put_state state now (s ∷ states) log h = elim (Bool-cases (s.0 == state)) [
  | inl same ↦
      let gone : is_pending_state state states ≡ false = ground (arith, eq_iff s.0 state) in
      let rest = tracks-issued state now states log gone (ground arith) in
      ground (arith, eq_iff state state)
  | inr other ↦ ground (
    arith,
    eq_iff s.0 state,
    eq_iff state s.0,
    tracks-put_state state now states log,
    is_pending_state-put_state s.0 state now states,
  )
]

is_open_of_issue :
    (now time : ℕ) (state : String) (log : Log)
    → is_last_issue state time log ≡ true
    → ltb state_ttl (now - time) ≡ false
    → is_open now state log ≡ true
is_open_of_issue now time state [] h recent = absurd (ground arith)
is_open_of_issue now time state (issued s u ∷ log) h recent =
    ground (arith, is_open_of_issue now time state log)
is_open_of_issue now time state (accepted s ∷ log) h recent =
    ground (arith, is_open_of_issue now time state log)

is_open_of_recent :
    (now : ℕ) (state : String) (states : States) (log : Log)
    → tracks states log ≡ true
    → is_recent now state states ≡ true
    → is_open now state log ≡ true
is_open_of_recent now state [] log h recent = absurd (ground arith)
is_open_of_recent now state (s ∷ states) log h recent = ground (
  arith,
  eq_iff s.0 state,
  is_open_of_issue now s.1 s.0 log,
  is_open_of_recent now state states log,
)

authorize-tracks :
    (e : Env) (urlencode : List (String × String) → String) (now : ℕ) (state : String)
    (states : States) (log : Log)
    → tracks states log ≡ true
    → let done = authorize e urlencode now state states in
      tracks done.1 (note_issue state now done.0 log) ≡ true
unfolding authorize add_state cleanup_expired_states
authorize-tracks e urlencode now state states log h = elim (Bool-cases (apple_scim_enabled e)) [
  | inr disabled ↦ ground arith
  | inl enabled ↦
      let fresh = tracks-delete_where (λ s. ltb state_ttl (now - s.1)) states log h in
      let put = tracks-put_state state now (cleanup_expired_states now states) log fresh in
      ground arith
]

-- A claim that fails has removed states at most.
claim-tracks :
    (e : Env) (int : Value → Option ℕ) (c : Callback) (code state : String) (states : States)
    (db : Db) (log : Log)
    → tracks states log ≡ true
    → let done = claim e int c code state states db in
      tracks done.states (note_acceptance state done.result log) ≡ true
unfolding claim is_valid_state consume_state cleanup_expired_states
claim-tracks e int c code state states db log h =
    let expired = (λ (s : String × ℕ). ltb state_ttl (c.monotonic - s.1)) in
    let fresh = cleanup_expired_states c.monotonic states in
    let fresher = cleanup_expired_states c.monotonic fresh in
    let left = delete_where (λ s. s.0 == state) fresher in
    let one : tracks fresh log ≡ true = tracks-delete_where expired states log h in
    let two : tracks fresher log ≡ true = tracks-delete_where expired fresh log one in
    let three : tracks left log ≡ true = tracks-delete_where (λ s. s.0 == state) fresher log two in
    let gone : is_pending_state state left ≡ false =
      is_pending_state-delete c.monotonic state fresher in
    let four = tracks-accepted state left log gone three in
    elim (Bool-cases (is_pending_state state fresh)) [
      | inr unknown ↦ ground arith
      | inl known ↦ elim (Bool-cases c.is_busy) [
        | inl busy ↦ ground arith
        | inr idle ↦ elim (Bool-cases (is_pending_state state fresher)) [
          | inr late ↦ ground arith
          | inl there ↦ elim (Result-cases (exchange_reply e int c.now (c.answer code) db)) [
            | inr (x, failed) ↦ ground arith
            | inl (done, made) ↦ ground arith
          ]
        ]
      ]
    ]

callback-tracks :
    (e : Env) (int : Value → Option ℕ) (c : Callback) (states : States) (db : Db) (log : Log)
    → tracks states log ≡ true
    → let done = callback e int c states db in
      tracks done.states (note_acceptance (text_or_empty c.state) done.result log) ≡ true
unfolding callback
callback-tracks e int c states db log h =
    let claimed =
      claim-tracks e int c (text_or_empty c.code) (text_or_empty c.state) states db log h in
    elim (Bool-cases (apple_scim_enabled e)) [
      | inr disabled ↦ ground arith
      | inl enabled ↦ elim (Bool-cases (is_set c.error)) [
        | inl failed ↦ ground arith
        | inr no_error ↦ elim (Bool-cases (is_set c.code)) [
          | inr no_code ↦ ground arith
          | inl some_code ↦ elim (Bool-cases (is_set c.state)) [
            | inr no_state ↦ ground arith
            | inl some_state ↦ ground arith
          ]
        ]
      ]
    ]

module _ (e : Env) (int : Value → Option ℕ) (urlencode : List (String × String) → String) where
  after_calls-tracks :
      (calls : List Call) (h : History)
      → tracks h.states h.log ≡ true
      → let after = after_calls e int urlencode calls h in tracks after.states after.log ≡ true
  after_calls-tracks [] h kept = kept
  after_calls-tracks (authorizes now state ∷ calls) h kept =
      after_calls-tracks calls _ (authorize-tracks e urlencode now state h.states h.log kept)
  after_calls-tracks (calls_back c ∷ calls) h kept =
      after_calls-tracks calls _ (callback-tracks e int c h.states h.db h.log kept)

  -- After any sequence of authorizations and callbacks, failed and refused ones among them, a callback
  -- is accepted only while no other operation holds the connection, and only if its state was given
  -- out at most ten minutes before and no callback with it was accepted since.
  pub callback-single_use :
      (calls : List Call) (db : Db) (c : Callback) (tokens : ℕ × Bool)
      → let after = after_calls e int urlencode calls (empty_history db) in
        (callback e int c after.states after.db).result ≡ ok tokens
        → (c.is_busy ≡ false) × (is_open c.monotonic (text_or_empty c.state) after.log ≡ true)
  callback-single_use calls db c tokens h =
      let after = after_calls e int urlencode calls (empty_history db) in
      let claims = callback-claim e int c after.states after.db tokens h in
      let accepts =
        claim-accepts e int c (text_or_empty c.code) (text_or_empty c.state) after.states after.db
          tokens (subst (λ called. called.result ≡ ok tokens) claims h) in
      (
        accepts.1,
        is_open_of_recent c.monotonic (text_or_empty c.state) after.states after.log
            (after_calls-tracks calls (empty_history db) refl) accepts.0,
      )
