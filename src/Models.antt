-- ===== src/Models.antt =====
-- app/models.py: the validation of the bodies of the stream management API. The messages stand
-- without the values that they quote.
pub mod Laws
use ssf_transmitter.Prelude.{
  ℕ, String, Bool, not, Option, none, some, List, [], ◌∷◌, map, truthy, strip, elem, all, is_empty,
  length,
}
use ssf_transmitter.Result.{Result, ok, err, value_error, ◌>>=◌, ◌>>◌, raise_if}
use ssf_transmitter.Value.{Value, Items, null, text, arr, nil, cons}

abbrev pub supported_event_uris : List String
supported_event_uris =
    "https://schemas.openid.net/secevent/ssf/event-type/verification"
    ∷ "https://schemas.openid.net/secevent/caep/event-type/session-revoked"
    ∷ "https://schemas.openid.net/secevent/caep/event-type/credential-change" ∷ []

abbrev pub canonicalize_event_uri : String → String
canonicalize_event_uri uri = uri

abbrev pub supported_delivery_methods : List String
supported_delivery_methods =
    "urn:ietf:rfc:8935" ∷ "https://schemas.openid.net/secevent/risc/delivery-method/push" ∷ []

pub data StreamStatus : Type 0 where
  enabled paused disabled : StreamStatus

abbrev pub status_value : StreamStatus → String
status_value enabled = "enabled"
status_value paused = "paused"
status_value disabled = "disabled"

-- The list is unwrapped where it has one element.
abbrev pub single_value : Value → Result Value
single_value (arr (cons v nil)) = ok v
single_value (arr _) = err (value_error "aud must be a single string value")
single_value v = ok v

abbrev pub non_blank : Value → Result String
non_blank (text s) = do
  raise_if (not (truthy (strip s))) (value_error "aud must not be empty")
  ok s
non_blank _ = err (value_error "aud must be a string")

unfoldable pub coerce_aud : Value → Result String
coerce_aud v = do single ← single_value v; non_blank single

unfoldable pub coerce_aud_optional : Value → Result (Option String)
unfolding coerce_aud
coerce_aud_optional null = ok none
coerce_aud_optional v = do aud ← coerce_aud v; ok (some aud)

unfoldable pub validate_event_uris : List String → Result (List String)
validate_event_uris uris = do
  let canonical = map canonicalize_event_uri uris
  raise_if (not (all (λ u. elem u supported_event_uris) canonical))
      (value_error "Unsupported event URI(s)")
  ok canonical

unfoldable pub validate_method : Option String → Result (Option String)
validate_method none = ok none
validate_method (some m) = do
  raise_if (not (elem m supported_delivery_methods)) (value_error "Unsupported delivery method")
  ok (some m)

pub record DeliveryConfig : Type 0 where
  pub endpoint_url : String
  pub method : Option String
  pub endpoint_url_token : Option String
  pub authorization_header : Option String

-- A validated body of POST /ssf/streams, and one of PATCH.
pub record StreamCreateRequest : Type 0 where
  pub aud : String
  pub delivery : DeliveryConfig
  pub events_requested : List String
  pub status : StreamStatus

pub record StreamPatchRequest : Type 0 where
  pub status : Option StreamStatus
  pub events_requested : Option (List String)
  pub delivery : Option DeliveryConfig
  pub aud : Option String

-- The validators of a create body, in the order of its fields.
unfoldable pub stream_create_request :
    Value → DeliveryConfig → List String → StreamStatus → Result StreamCreateRequest
stream_create_request aud delivery events_requested status = do
  single ← coerce_aud aud
  _ ← validate_method delivery.method
  events ← validate_event_uris events_requested
  ok (record { aud = single; delivery = delivery; events_requested = events; status = status })
