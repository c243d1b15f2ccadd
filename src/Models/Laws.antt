-- ===== src/Models/Laws.antt =====
-- Which bodies of a stream registration are accepted.
use ssf_transmitter.Prelude.{
  String, ◌≡◌, ◌↔◌, ◌⊎◌, inl, inr, refl, ap, true, List, [], ◌∷◌, map, Option, none, some, arith,
  truthy, strip, elem, all,
}
use ssf_transmitter.Result.{ok, Result-cases}
use ssf_transmitter.Value.{Value, text, arr, nil, cons}
use ssf_transmitter.Models.{
  StreamStatus, DeliveryConfig, StreamCreateRequest, supported_event_uris,
  supported_delivery_methods, coerce_aud, validate_event_uris, validate_method,
  stream_create_request, canonicalize_event_uri,
}

coerce_aud_sound :
    (v : Value) (s : String)
    → coerce_aud v ≡ ok s
    → ((v ≡ text s) ⊎ (v ≡ arr (cons (text s) nil))) × (truthy (strip s) ≡ true)
unfolding coerce_aud
coerce_aud_sound (text t) s h = ground arith
coerce_aud_sound (arr (cons (text t) nil)) s h = ground arith
coerce_aud_sound _ s h = absurd (ground arith)

-- An audience is accepted exactly when it is a text, or a list of one text, that is not blank.
pub coerce_aud_iff :
    (v : Value) (s : String)
    → (coerce_aud v ≡ ok s)
      ↔ (((v ≡ text s) ⊎ (v ≡ arr (cons (text s) nil))) × (truthy (strip s) ≡ true))
unfolding coerce_aud
coerce_aud_iff v s = (
  coerce_aud_sound v s,
  λ h. elim h.0 [
    | inl plain ↦ rw plain (ground (arith, h.1))
    | inr single ↦ rw single (ground (arith, h.1))
  ],
)

validate_method_sound :
    (m : Option String) {r : Option String}
    → validate_method m ≡ ok r
    → (m ≡ none) ⊎ ((u : String) × (m ≡ some u) × (elem u supported_delivery_methods ≡ true))
unfolding validate_method
validate_method_sound none h = inl refl
validate_method_sound (some u) h = inr (u, refl, ground arith)

map_canonical : (us : List String) → map canonicalize_event_uri us ≡ us
map_canonical [] = refl
map_canonical (u ∷ us) = ap (λ vs. u ∷ vs) (map_canonical us)

-- A registration that is accepted has the audience of the body, a supported delivery method if it
-- names one, and the requested events unaltered, each of them supported.
pub stream_create_request_lem :
    (aud : Value) (delivery : DeliveryConfig) (events : List String) (status : StreamStatus)
    (r : StreamCreateRequest)
    → stream_create_request aud delivery events status ≡ ok r
    → (coerce_aud aud ≡ ok r.aud)
      × (r.events_requested ≡ events)
      × (all (λ u. elem u supported_event_uris) events ≡ true)
      × ((delivery.method ≡ none)
          ⊎ ((u : String) × (delivery.method ≡ some u)
              × (elem u supported_delivery_methods ≡ true)))
unfolding stream_create_request validate_event_uris
stream_create_request_lem aud delivery events status r h = elim (Result-cases (coerce_aud aud)) [
  | inr (x, refused) ↦ absurd (ground arith)
  | inl (single, coerced) ↦ elim (Result-cases (validate_method delivery.method)) [
    | inr (x, refused) ↦ absurd (ground arith)
    | inl (m, supported) ↦ (
      ground arith,
      ground (arith, map_canonical events),
      ground (arith, map_canonical events),
      validate_method_sound delivery.method supported,
    )
  ]
]
