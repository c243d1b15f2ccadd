-- ===== src/Auth/Laws.antt =====
-- Who passes the management API, and when attempts are refused.
use ssf_transmitter.Prelude.{
  ℕ, ◌-◌, ◌≤◌, ◌<◌, String, ◌≡◌, ◌↔◌, ◌⊎◌, inl, inr, refl, Bool, true, some, List, [], ◌∷◌, arith,
  length, length-append, count_where, ltb, leb, Bool-cases, Option-cases, eq_iff, after_prefix,
  text_or_empty, ◌==◌, string_eq,
}
use ssf_transmitter.Result.{Result-cases, ok, err, http}
use ssf_transmitter.Environment.{Env}
use ssf_transmitter.Auth.{
  Caller, Failures, failure_limit, failure_window, client_key, drop_expired, append,
  record_management_auth_failure, require_management_auth,
}

-- The attempts of a client, oldest first.
abbrev pub Ascending : ℕ → List ℕ → Type 0
Ascending lo [] = Unit {0}
Ascending lo (t ∷ ts) = (lo ≤ t) × Ascending t ts

abbrev pub is_recent : ℕ → ℕ → Bool
is_recent now t = ltb (now - t) failure_window

all_recent :
    (now lo : ℕ) (ts : List ℕ)
    → now - lo < failure_window
    → Ascending lo ts
    → count_where (is_recent now) ts ≡ length ts
all_recent now lo [] h k = refl
all_recent now lo (t ∷ ts) h k = ground (arith, all_recent now t ts (omega (arith, k.0)) k.1, k.0)

length-drop_expired :
    (now lo : ℕ) (ts : List ℕ)
    → Ascending lo ts
    → length (drop_expired now ts) ≡ count_where (is_recent now) ts
unfolding drop_expired
length-drop_expired now lo [] k = refl
length-drop_expired now lo (t ∷ ts) k = elim (Bool-cases (leb failure_window (now - t))) [
  | inl expired ↦ ground (arith, length-drop_expired now t ts k.1)
  | inr recent ↦ ground (arith, all_recent now t ts (ground arith) k.1)
]

-- What the two refusals of the limit count.
exceeds :
    (ts : List ℕ) (now : ℕ)
    → ltb failure_limit (length (append ts now)) ≡ leb failure_limit (length ts)
unfolding append
exceeds [] now = refl
exceeds (t ∷ ts) now = ground (arith, length-append ts (now ∷ []))

module _ (now : ℕ) (caller : Caller) (failures : Failures) where
  -- Where the limiter is enabled and the stored attempts of the client are in the order of time, a
  -- failed attempt is answered with 429 exactly when ten or more of them lie in the last minute, and
  -- it leaves the attempts of every other client alone.
  pub record_management_auth_failure_iff :
      (other : String)
      → Ascending 0 (failures (client_key caller))
      → (((record_management_auth_failure true now caller failures).0
            ≡ err (http 429 "Rate limit exceeded"))
          ↔ (failure_limit ≤ count_where (is_recent now) (failures (client_key caller))))
        × ((other ≡ client_key caller)
            ⊎ ((record_management_auth_failure true now caller failures).1 other ≡ failures other))
  unfolding record_management_auth_failure
  record_management_auth_failure_iff other ordered =
      let attempts = failures (client_key caller) in
      (
        ground (
          arith,
          exceeds (drop_expired now attempts) now,
          length-drop_expired now 0 attempts ordered,
        ),
        elim (Bool-cases (other == client_key caller)) [
          | inl own ↦ inl ((eq_iff other (client_key caller)).0 own)
          | inr foreign ↦ inr (ground arith)
        ],
      )

module _ (e : Env) (now : ℕ) (caller : Caller) (failures : Failures) where
  -- A request passes exactly when its header is the word Bearer, one space and the management
  -- token, whatever attempts have failed before.
  pub require_management_auth_iff :
      (enabled : Bool)
      → ((require_management_auth e enabled now caller failures).0 ≡ ok tt) ↔ (
          after_prefix "Bearer " (text_or_empty caller.authorization)
          ≡ some e.settings.ssf_management_token)
  unfolding require_management_auth
  require_management_auth_iff enabled =
      elim (Option-cases (after_prefix "Bearer " (text_or_empty caller.authorization))) [
        | inl absent ↦
            elim (Result-cases (record_management_auth_failure enabled now caller failures).0) [
              | inl (_, below) ↦ ground (arith, absent)
              | inr (_, above) ↦ ground (arith, absent)
            ]
        | inr (token, given) ↦
            elim (Result-cases (record_management_auth_failure enabled now caller failures).0) [
              | inl (_, below) ↦ ground (arith, given, eq_iff token e.settings.ssf_management_token)
              | inr (_, above) ↦ ground (arith, given, eq_iff token e.settings.ssf_management_token)
            ]
      ]
