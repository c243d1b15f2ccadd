-- ===== src/Scim/Http.antt =====
-- The HTTP client of app/scim/apple.py: actions that send requests, may raise, and remember what
-- they have sent. Apple answers by all that it has been sent, so that it may keep a state.
use ssf_transmitter.Prelude.{ℕ, String, Option, List, ◌∷◌, nat_eq}
use ssf_transmitter.Result.{Result, ok, err, http_failure}
use ssf_transmitter.Value.{Value}

pub data Method : Type 0 where
  get_ post put patch : Method

pub record ScimRequest : Type 0 where
  pub method : Method
  pub url : String
  pub body : Option Value

-- A status and the JSON value of the body, if it is JSON, or an httpx.HTTPError.
pub data ScimReply : Type 0 where
  reply : ℕ → Option Value → ScimReply
  no_reply : ScimReply

-- The last request first.
abbrev pub Sent : Type 0
Sent = List ScimRequest

-- What an action does to a state, which stays as it is when the action raises.
abbrev pub Act {ℓ} : Type 0 → Type ℓ → Type ℓ
Act S A = S → Result A × S

abbrev pub Io {ℓ} : Type ℓ → Type ℓ
Io A = Act Sent A

module _ {ℓ} {S : Type 0} {A : Type ℓ} where
  unfoldable pub pure : A → Act S A
  pure a state = (ok a, state)

  unfoldable pub lift : Result A → Act S A
  lift r state = (r, state)

module _ {ℓ κ} {S : Type 0} {A : Type ℓ} {B : Type κ} where
  abbrev pub continue : (A → Act S B) → Result A × S → Result B × S
  continue k (ok a, state) = k a state
  continue k (err x, state) = (err x, state)

  infixl 5 ◌>>=◌
  unfoldable pub ◌>>=◌ : Act S A → (A → Act S B) → Act S B
  (m >>= k) state = continue k (m state)

infixl 5 ◌>>◌
abbrev pub ◌>>◌ {ℓ} : {S : Type 0} {B : Type ℓ} → Act S (Unit {0}) → Act S B → Act S B
m >> n = m >>= λ _. n

-- The network: what Apple answers to the first request, after all the others.
abbrev pub Apple : Type 0
Apple = Sent → ScimReply

unfoldable pub call : Apple → ScimRequest → Io ScimReply
call apple request sent = (ok (apple (request ∷ sent)), request ∷ sent)

-- The status and the body of a reply; a call that has none raises.
pub data Reply : Type 0 where
  response : ℕ → Option Value → Reply

abbrev pub replied : ScimReply → Result Reply
replied (reply status body) = ok (response status body)
replied no_reply = err http_failure
