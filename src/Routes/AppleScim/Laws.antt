-- ===== src/Routes/AppleScim/Laws.antt =====
-- When an authorization is accepted, and what becomes of its state.
use ssf_transmitter.Prelude.{
  ℕ, ◌-◌, String, ◌≡◌, inl, inr, refl, Bool, true, false, not, ◌&&◌, ◌||◌, Option, [], ◌∷◌, arith,
  Bool-cases, ltb, ◌==◌, string_eq, delete_where, text_or_empty,
}
use ssf_transmitter.Result.{Result-cases, ok}
use ssf_transmitter.Value.{Value}
use ssf_transmitter.Environment.{Env}
use ssf_transmitter.Database.{Db}
use ssf_transmitter.Routes.AppleScim.{
  state_ttl, States, cleanup_expired_states, is_pending_state, consume_state, is_valid_state,
  Callback, exchange_reply, claim, callback, is_set, apple_scim_enabled,
}

-- The state was given out, at most ten minutes ago.
abbrev pub is_recent : ℕ → String → States → Bool
is_recent now state [] = false
is_recent now state (s ∷ states) =
    (s.0 == state && not (ltb state_ttl (now - s.1))) || is_recent now state states

is_pending_state-cleanup :
    (now : ℕ) (state : String) (states : States)
    → is_pending_state state (cleanup_expired_states now states) ≡ is_recent now state states
unfolding is_pending_state cleanup_expired_states
is_pending_state-cleanup now state [] = refl
is_pending_state-cleanup now state (s ∷ states) =
    ground (arith, is_pending_state-cleanup now state states)

pub is_pending_state-delete :
    (now : ℕ) (state : String) (states : States)
    → is_pending_state state (delete_where (λ s. s.0 == state) states) ≡ false
unfolding is_pending_state
is_pending_state-delete now state [] = refl
is_pending_state-delete now state (s ∷ states) =
    ground (arith, is_pending_state-delete now state states)

is_recent-pending :
    (now : ℕ) (state : String) (states : States)
    → is_recent now state states ≡ true
    → is_pending_state state states ≡ true
unfolding is_pending_state
is_recent-pending now state [] h = h
is_recent-pending now state (s ∷ states) h = ground (arith, is_recent-pending now state states)

pub claim-accepts :
    (e : Env) (int : Value → Option ℕ) (c : Callback) (code state : String) (states : States)
    (db : Db) (tokens : ℕ × Bool)
    → (claim e int c code state states db).result ≡ ok tokens
    → (is_recent c.monotonic state states ≡ true)
      × (c.is_busy ≡ false)
      × (is_pending_state state (claim e int c code state states db).states ≡ false)
unfolding claim is_valid_state consume_state
claim-accepts e int c code state states db tokens h =
    let recent = is_pending_state-cleanup c.monotonic state states in
    let deleted =
      is_pending_state-delete c.monotonic state
        (cleanup_expired_states c.monotonic (cleanup_expired_states c.monotonic states)) in
    elim (Bool-cases (is_pending_state state (cleanup_expired_states c.monotonic states))) [
      | inr unknown ↦ absurd (ground arith)
      | inl known ↦ elim (Bool-cases c.is_busy) [
        | inl busy ↦ absurd (ground arith)
        | inr idle ↦
            elim (Bool-cases (
              is_pending_state state
                (cleanup_expired_states c.monotonic (cleanup_expired_states c.monotonic states)))) [
                  | inr gone ↦ absurd (ground arith)
                  | inl there ↦
                      elim (Result-cases (exchange_reply e int c.now (c.answer code) db)) [
                        | inr (x, failed) ↦ absurd (ground arith)
                        | inl (done, made) ↦ (ground (arith, recent), idle, ground (arith, deleted))
                      ]
                ]
      ]
    ]

pub callback-claim :
    (e : Env) (int : Value → Option ℕ) (c : Callback) (states : States) (db : Db)
    (tokens : ℕ × Bool)
    → (callback e int c states db).result ≡ ok tokens
    → callback e int c states db
      ≡ claim e int c (text_or_empty c.code) (text_or_empty c.state) states db
unfolding callback
callback-claim e int c states db tokens h = elim (Bool-cases (apple_scim_enabled e)) [
  | inr disabled ↦ absurd (ground arith)
  | inl enabled ↦ elim (Bool-cases (is_set c.error)) [
    | inl failed ↦ absurd (ground arith)
    | inr no_error ↦ elim (Bool-cases (is_set c.code)) [
      | inr no_code ↦ absurd (ground arith)
      | inl some_code ↦ elim (Bool-cases (is_set c.state)) [
        | inr no_state ↦ absurd (ground arith)
        | inl some_state ↦ ground arith
      ]
    ]
  ]
]
