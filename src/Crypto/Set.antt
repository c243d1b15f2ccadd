-- ===== src/Crypto/Set.antt =====
-- app/crypto.py: the claims of the Security Event Tokens and the material that signs them.
use ssf_transmitter.Prelude.{
  ℕ, String, Option, none, some, if◌then◌else◌, truthy, or_text, text_or_empty,
}
use ssf_transmitter.Result.{Result, ok, err, unexpected, ◌>>=◌}
use ssf_transmitter.Value.{Value, Fields, int, text, arr, obj, nil, cons, end, field, get}
use ssf_transmitter.Environment.{Env}

abbrev pub verification_uri : String
verification_uri = "https://schemas.openid.net/secevent/ssf/event-type/verification"

-- The key id of the first key; a JWKS with no keys, or a key with no id, raises.
first_kid : Value → Result String
first_kid (arr (cons (obj key) rest)) = elim (get key "kid") [
  | text kid ↦ if truthy kid then ok kid else err unexpected
  | _ ↦ err unexpected
]
first_kid _ = err unexpected

unfoldable pub load_signing_material : Env → Result (String × String)
unfolding first_kid
load_signing_material e = elim e.private_pem [
  | none ↦ err unexpected
  | some pem ↦ elim e.jwks [
    | obj jwks ↦ do kid ← first_kid (get jwks "keys"); ok (pem, kid)
    | _ ↦ err unexpected
  ]
]

-- The claims of `sign_set`: `jti` and `spare_txn` are fresh UUIDs.
unfoldable pub set_claims :
    Env → ℕ → String → String → String → String → String → Value → Option String → Fields
set_claims e now jti spare_txn event_uri audience email event_payload txn =
    field "iss" (text e.settings.ssf_issuer) (
      field "iat" (int now) (
        field "jti" (text jti) (
          field "aud" (arr (cons (text audience) nil)) (
            field "txn" (text (or_text (text_or_empty txn) spare_txn)) (
              field "sub_id" (obj (field "format" (text "email") (field "email" (text email) end)))
                (field "events" (obj (field event_uri event_payload end)) end))))))

unfoldable pub sign_set :
    Env → ℕ → String → String → String → String → String → Value → Option String → Result String
sign_set e now jti spare_txn event_uri audience email event_payload txn = do
  (pem, kid) ← load_signing_material e
  ok (
      e.jwt_encode (obj (set_claims e now jti spare_txn event_uri audience email event_payload txn))
        pem kid)

unfoldable pub verification_claims : Env → ℕ → String → String → String → Option String → Fields
verification_claims e now jti audience stream_id state = field "iss" (text e.settings.ssf_issuer) (
    field "iat" (int now) (
      field "jti" (text jti) (
        field "aud" (arr (cons (text audience) nil)) (
          field "sub_id" (obj (field "format" (text "opaque") (field "id" (text stream_id) end))) (
            field "events"
              (obj (
                field verification_uri
                  (obj (elim state [ none ↦ end | some s ↦ field "state" (text s) end ])) end))
              end)))))

unfoldable pub sign_verification_set :
    Env → ℕ → String → String → String → Option String → Result String
sign_verification_set e now jti audience stream_id state = do
  (pem, kid) ← load_signing_material e
  ok (e.jwt_encode (obj (verification_claims e now jti audience stream_id state)) pem kid)
