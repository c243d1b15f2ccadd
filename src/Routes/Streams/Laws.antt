-- ===== src/Routes/Streams/Laws.antt =====
-- What a registration, a patch and a deletion come to.
use ssf_transmitter.Prelude.{
  ℕ, String, ◌≡◌, ◌⊎◌, inl, inr, refl, ◌∙◌, ap, Bool, true, false, none, some, List, [], ◌∷◌, arith,
  truthy, where_, Bool-cases, subst,
}
use ssf_transmitter.Result.{Error, Result, ok, err, Result-cases}
use ssf_transmitter.Environment.{Env}
use ssf_transmitter.Crypto.Laws.{FernetRoundTrip}
use ssf_transmitter.Database.{Stream, Db, is_pending}
use ssf_transmitter.Database.Streams.{prepare_stream, get_first_stream, save_stream}
use ssf_transmitter.Database.Update.{save_stream_lem}
use ssf_transmitter.Events.Pusher.{Net, Request, request_of, push_verification_set}
use ssf_transmitter.Events.Pusher.Laws.{IsAccepted, IsCurrent, push_verification_set-true}
use ssf_transmitter.Models.{StreamCreateRequest}
use ssf_transmitter.Security.Url.{Dns, validate_receiver_endpoint_url}
use ssf_transmitter.Security.Url.Laws.{IsSafeUrl, validate_sound}
use ssf_transmitter.Routes.Streams.{
  Handled, StreamResponse, stream_response, or_400, create_payload, candidate, confirm,
  create_stream_endpoint,
}

or_400_ok :
    {A : Type 0} (prefix : String) (r : Result A) {a : A} → or_400 prefix r ≡ ok a → r ≡ ok a
or_400_ok prefix (ok b) h = h
or_400_ok prefix (err x) h = absurd (ground arith)

prepare_stream-endpoint_url :
    (body : StreamCreateRequest) (fresh : String) (now : ℕ) (s : Stream)
    → truthy body.delivery.endpoint_url ≡ true
    → prepare_stream (create_payload body) fresh now ≡ ok s
    → s.endpoint_url ≡ body.delivery.endpoint_url
unfolding prepare_stream
prepare_stream-endpoint_url body fresh now s given h = elim (Bool-cases (truthy body.aud)) [
  | inl named ↦ ground arith
  | inr unnamed ↦ absurd (ground arith)
]

candidate_sound :
    (e : Env) (dns : String → Dns) (body : StreamCreateRequest) (fresh : String) (now : ℕ)
    (s : Stream)
    → candidate e dns body fresh now ≡ ok s
    → IsSafeUrl e dns body.delivery.endpoint_url e.settings.ssf_allowed_receiver_hosts
      × (s.endpoint_url ≡ body.delivery.endpoint_url)
unfolding candidate
candidate_sound e dns body fresh now s h =
    let url = body.delivery.endpoint_url in
    let allowed = e.settings.ssf_allowed_receiver_hosts in
    elim (Result-cases
      (or_400 "Invalid endpoint_url: " (validate_receiver_endpoint_url e dns url allowed))) [
        | inr (x, refused) ↦ absurd (ground arith)
        | inl (u, passed) ↦
            let safe =
              (validate_sound e dns url allowed (
                or_400_ok "Invalid endpoint_url: "
                  (validate_receiver_endpoint_url e dns url allowed) passed)).1 in
            (
              safe,
              prepare_stream-endpoint_url body fresh now s safe.given
                  (or_400_ok "" (prepare_stream (create_payload body) fresh now) (ground arith)),
            )
      ]

confirm_cases :
    (e : Env) (r : Result Bool × List Request) (s : Stream) (db : Db)
    → ((x : Error) × ((confirm e r s db).answer ≡ err x) × ((confirm e r s db).db ≡ db))
      ⊎ ((r.0 ≡ ok true)
          × ((confirm e r s db).answer ≡ ok (stream_response e s))
          × ((confirm e r s db).sent ≡ r.1)
          × ((confirm e r s db).db ≡ save_stream e s db))
unfolding confirm
confirm_cases e (err x, sent) s db = inl (x, refl, refl)
confirm_cases e (ok false, sent) s db = inl (_, refl, refl)
confirm_cases e (ok true, sent) s db = inr (refl, refl, refl, refl)

module _ (e : Env) (fernet : FernetRoundTrip e) (dns : String → Dns) (net : Net) where
  -- What a registration has shown before it takes effect.
  pub record IsConfirmed (url : String) (s : Stream) (h : Handled StreamResponse) : Type 0 where
    pub answered : h.answer ≡ ok (stream_response e s)
    pub safe : IsSafeUrl e dns url e.settings.ssf_allowed_receiver_hosts
    pub at : s.endpoint_url ≡ url
    pub current : IsCurrent e net url
    pub token : String
    pub sent : h.sent ≡ request_of s token ∷ []
    pub accepted : IsAccepted e net (request_of s token)
    pub stored : get_first_stream e h.db ≡ some s
    pub cleared : where_ is_pending h.db.outbox ≡ []

  -- A registration either fails and leaves the tables as they were, or its endpoint is safe and
  -- current, has accepted the one verification request, and the stream of the answer is the one
  -- that is stored from then on, with no SET queued for another stream left pending.
  pub create_stream_endpoint_cases :
      (body : StreamCreateRequest) (fresh jti : String) (now : ℕ) (db : Db)
      → let h = create_stream_endpoint e dns net body fresh jti now db in
        ((x : Error) × (h.answer ≡ err x) × (h.db ≡ db))
        ⊎ ((s : Stream) × IsConfirmed body.delivery.endpoint_url s h)
  unfolding create_stream_endpoint
  create_stream_endpoint_cases body fresh jti now db =
      elim (Result-cases (candidate e dns body fresh now)) [
        | inr (x, refused) ↦ inl (x, ground arith, ground arith)
        | inl (s, chosen) ↦
            rw (chosen, create_stream_endpoint)
              (elim (confirm_cases e (push_verification_set e net now jti s none) s db) [
                | inl failed ↦ inl failed
                | inr (pushed, answered, sent, saved) ↦
                    let (safe, at) = candidate_sound e dns body fresh now s chosen in
                    let (token, one, current, accepted) =
                      push_verification_set-true e net now jti s none pushed in
                    let (readable, _, cleared, _) = save_stream_lem e fernet s db in
                    inr (
                      s,
                      record {
                        answered = answered;
                        safe = safe;
                        at = at;
                        current = subst (IsCurrent e net) at current;
                        token = token;
                        sent = sent ∙ one;
                        accepted = accepted;
                        stored = ap (get_first_stream e) saved ∙ readable;
                        cleared = ap (λ (d : Db). where_ is_pending d.outbox) saved ∙ cleared;
                      },
                    )
              ])
      ]
