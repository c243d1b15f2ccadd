-- ===== src/Result.antt =====
-- The exceptions that the program raises, as values.
use ssf_transmitter.Prelude.{
  ℕ, String, ◌≡◌, refl, ◌⊎◌, inl, inr, Bool, true, false, Option, none, some,
}

pub data Error : Type 0 where
  -- ValueError
  value_error : String → Error
  -- database.StreamChangedError and database.OutboxFullError
  stream_changed outbox_full : Error
  -- crypto.TokenDecryptionError and crypto.EncryptedDataError
  token_undecryptable data_undecryptable : Error
  -- RuntimeError, OSError and the like, which no handler of the program names
  unexpected : Error
  -- scim.apple.AppleUserListError, and httpx.HTTPError of a call that has no reply
  user_list_error : String → Error
  http_failure : Error
  -- fastapi.HTTPException
  http : ℕ → String → Error

pub data Result {ℓ} (A : Type ℓ) : Type ℓ where
  ok : A → Result A
  err : Error → Result A

infixl 5 ◌>>◌
module _ {ℓ κ} {A : Type ℓ} {B : Type κ} where
  infixl 5 ◌>>=◌
  abbrev pub ◌>>=◌ : Result A → (A → Result B) → Result B
  ok value >>= next = next value
  err raised >>= next = err raised

abbrev pub ◌>>◌ {κ} : {B : Type κ} → Result (Unit {0}) → Result B → Result B
check >> rest = check >>= λ _. rest

-- `if test: raise error`
abbrev pub raise_if : Bool → Error → Result (Unit {0})
raise_if true e = err e
raise_if false e = ok tt

abbrev pub or_raise {ℓ} : {A : Type ℓ} → Option A → Error → Result A
or_raise none e = err e
or_raise (some a) e = ok a

-- Whether a computation returned or raised.
pub Result-cases {ℓ} :
    {A : Type ℓ} (r : Result A) → ((a : A) × (r ≡ ok a)) ⊎ ((x : Error) × (r ≡ err x))
Result-cases (ok a) = inl (a, refl)
Result-cases (err x) = inr (x, refl)
