-- ===== src/Auth.antt =====
-- app/auth.py: the bearer token of the management API, and the limit on failed attempts. The
-- attempts of the clients are state that each call returns.
pub mod Laws
use ssf_transmitter.Prelude.{
  ℕ, ◌+◌, ◌-◌, String, Bool, true, false, not, ◌||◌, Option, none, some, List, [], ◌∷◌, ◌++◌, ltb,
  leb, ◌==◌, string_eq, if◌then◌else◌, length, truthy, text_or_empty, after_prefix,
}
use ssf_transmitter.Result.{Result, ok, err, http, ◌>>=◌}
use ssf_transmitter.Environment.{Env}

abbrev pub failure_limit : ℕ
failure_limit = 10

-- In milliseconds of the monotonic clock, as all times of this module.
abbrev pub failure_window : ℕ
failure_window = 60_000

-- What a request says of its client, and its Authorization header.
pub record Caller : Type 0 where
  pub host : Option String
  pub authorization : Option String

-- The deque of each client, the oldest attempt first; a client without one has the empty one.
abbrev pub Failures : Type 0
Failures = String → List ℕ

unfoldable pub client_key : Caller → String
client_key caller =
    if truthy (text_or_empty caller.host) then text_or_empty caller.host else "unknown-client"

unfoldable pub drop_expired : ℕ → List ℕ → List ℕ
drop_expired now [] = []
drop_expired now (t ∷ ts) =
    let rest = drop_expired now ts in if leb failure_window (now - t) then rest else t ∷ ts

abbrev drop_first : List ℕ → List ℕ
drop_first [] = []
drop_first (t ∷ ts) = ts

-- `append` on a deque whose maxlen is one above the limit.
unfoldable pub append : List ℕ → ℕ → List ℕ
append ts now =
    let longer = ts ++ now ∷ [] in
    if ltb (failure_limit + 1) (length longer) then drop_first longer else longer

abbrev pub set : String → List ℕ → Failures → Failures
set key ts failures other = if other == key then ts else failures other

unfoldable pub record_management_auth_failure :
    Bool → ℕ → Caller → Failures → Result (Unit {0}) × Failures
unfolding client_key drop_expired append
record_management_auth_failure enabled now caller failures =
    let key = client_key caller in
    let attempts = append (drop_expired now (failures key)) now in
    if enabled
    then (
      if ltb failure_limit (length attempts) then err (http 429 "Rate limit exceeded") else ok tt,
      set key attempts failures,
    )
    else (ok tt, failures)

abbrev then_raise : Result (Unit {0}) × Failures → ℕ → String → Result (Unit {0}) × Failures
then_raise (r, failures) status detail = (r >>= (λ _. err (http status detail)), failures)

unfoldable pub require_management_auth :
    Env → Bool → ℕ → Caller → Failures → Result (Unit {0}) × Failures
unfolding record_management_auth_failure
require_management_auth e enabled now caller failures =
    elim (after_prefix "Bearer " (text_or_empty caller.authorization)) [
      | none ↦
          then_raise (record_management_auth_failure enabled now caller failures) 401
            "Authorization required"
      | some token ↦
          if token == e.settings.ssf_management_token
          then (ok tt, failures)
          else then_raise (record_management_auth_failure enabled now caller failures) 403
              "Forbidden"
    ]
