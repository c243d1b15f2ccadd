-- ===== src/Events/Pusher/Laws.antt =====
-- No SET leaves for an endpoint that has not just been checked.
use ssf_transmitter.Prelude.{
  ℕ, String, ◌≡◌, ◌⊎◌, inl, inr, refl, true, false, Option, some, List, [], ◌∷◌, arith, truthy,
  elem, is_empty, Bool-cases, Bool, ◌↔◌, subst, sym, text_or_empty,
}
use ssf_transmitter.Result.{Result, Result-cases, ok, err}
use ssf_transmitter.Environment.{Env, ParsedUrl}
use ssf_transmitter.Crypto.Set.{sign_verification_set}
use ssf_transmitter.Database.{Stream}
use ssf_transmitter.Security.Url.{
  Dns, found, os_error, bad_name, safe_hostname, receiver_host_allowed,
  validate_receiver_endpoint_url,
}
use ssf_transmitter.Security.Url.Laws.{IsPublic, validate_receiver_endpoint_url_iff}
use ssf_transmitter.Events.Pusher.{
  Net, Request, Reply, http_error, other_error, read_reply, revalidate_endpoint, request_of,
  response, is_success, push_signed_set, push_verification_set,
}

abbrev is_ok_true : Result Bool → Bool
is_ok_true (ok true) = true
is_ok_true (ok false) = false
is_ok_true (err _) = false

-- The host of the URL is on a non-empty allowlist, and resolves to public addresses now.
pub record IsCurrent (e : Env) (net : Net) (url : String) : Type 0 where
  pub listed :
      (is_empty e.settings.ssf_allowed_receiver_hosts ≡ true)
      ⊎ (elem (safe_hostname e url) e.settings.ssf_allowed_receiver_hosts ≡ true)
  pub named : truthy (safe_hostname e url) ≡ true
  pub public : IsPublic e net.resolve (safe_hostname e url)

Dns-cases : (d : Dns) → ((ips : List String) × (d ≡ found ips)) ⊎ (d ≡ os_error) ⊎ (d ≡ bad_name)
Dns-cases (found ips) = inl (ips, refl)
Dns-cases os_error = inr (inl refl)
Dns-cases bad_name = inr (inr refl)

module _ (e : Env) (net : Net) where
  pub revalidate_endpoint_sound :
      (url : String) → revalidate_endpoint e net url ≡ ok true → IsCurrent e net url
  unfolding revalidate_endpoint receiver_host_allowed
  revalidate_endpoint_sound url h = elim (Dns-cases (net.resolve (safe_hostname e url))) [
    | inl (ips, resolved) ↦ record {
      listed = ground arith;
      named = ground arith;
      public = record {
        ips = ips;
        resolves = resolved;
        some_ip = ground arith;
        none_blocked = ground arith;
      };
    }
    | inr (inl failed) ↦ absurd (ground arith)
    | inr (inr failed) ↦ absurd (ground arith)
  ]

  revalidate_endpoint_complete :
      (url : String) → IsCurrent e net url → revalidate_endpoint e net url ≡ ok true
  unfolding revalidate_endpoint receiver_host_allowed
  revalidate_endpoint_complete url c = ground arith

  -- The check at the push and its description agree.
  pub revalidate_endpoint_iff :
      (url : String) → (revalidate_endpoint e net url ≡ ok true) ↔ IsCurrent e net url
  revalidate_endpoint_iff url = (revalidate_endpoint_sound url, revalidate_endpoint_complete url)

  abbrev pub IsAccepted : Request → Type 0
  IsAccepted request =
      (status : ℕ) × (net.post request ≡ response status) × (is_success status ≡ true)

  -- What a push has sent: nothing, or its one request, to an endpoint that was current.
  pub push_signed_set-sent :
      (stream : Stream) (token : String)
      → ((push_signed_set e net stream token).1 ≡ [])
        ⊎ (((push_signed_set e net stream token).1 ≡ request_of stream token ∷ [])
            × IsCurrent e net stream.endpoint_url)
  unfolding push_signed_set
  push_signed_set-sent stream token =
      elim (Bool-cases (is_ok_true (revalidate_endpoint e net stream.endpoint_url))) [
        | inl current ↦
            inr (ground arith, revalidate_endpoint_sound stream.endpoint_url (ground arith))
        | inr other ↦ inl (ground arith)
      ]

  -- What a push to a current endpoint that accepts it comes to.
  pub push_signed_set-delivers :
      (stream : Stream) (token : String)
      → IsCurrent e net stream.endpoint_url
      → IsAccepted (request_of stream token)
      → push_signed_set e net stream token ≡ (ok true, request_of stream token ∷ [])
  unfolding push_signed_set
  push_signed_set-delivers stream token current (status, replied, success) =
      ground (arith, revalidate_endpoint_complete stream.endpoint_url current)

  accepted : (request : Request) → read_reply (net.post request) ≡ ok true → IsAccepted request
  unfolding read_reply
  accepted request h = go (net.post request) refl h
    where
      go : (r : Reply) → net.post request ≡ r → read_reply r ≡ ok true → IsAccepted request
      go (response status) p q = (status, p, ground arith)
      go http_error p q = cc
      go other_error p q = cc

  push_signed_set-true :
      (stream : Stream) (token : String)
      → (push_signed_set e net stream token).0 ≡ ok true
      → IsCurrent e net stream.endpoint_url × IsAccepted (request_of stream token)
  unfolding push_signed_set
  push_signed_set-true stream token h = (
    revalidate_endpoint_sound stream.endpoint_url (ground arith),
    accepted (request_of stream token) (ground arith),
  )

  -- A push reports success exactly when the endpoint passes the check at that moment and the
  -- receiver answers the one request with a status from 200 to 299.
  pub push_signed_set-true_iff :
      (stream : Stream) (token : String)
      → ((push_signed_set e net stream token).0 ≡ ok true)
        ↔ (IsCurrent e net stream.endpoint_url × IsAccepted (request_of stream token))
  push_signed_set-true_iff stream token = (
    push_signed_set-true stream token,
    λ h. ground (arith, push_signed_set-delivers stream token h.0 h.1),
  )

  -- A verification SET that counts as delivered is one request to a current endpoint, accepted.
  pub push_verification_set-true :
      (now : ℕ) (jti : String) (stream : Stream) (state : Option String)
      → (push_verification_set e net now jti stream state).0 ≡ ok true
      → (token : String) × ((push_verification_set e net now jti stream state).1
          ≡ request_of stream token ∷ [])
        × IsCurrent e net stream.endpoint_url
        × IsAccepted (request_of stream token)
  unfolding push_verification_set
  push_verification_set-true now jti stream state h =
      elim (Bool-cases (is_ok_true (revalidate_endpoint e net stream.endpoint_url))) [
        | inr refused ↦ absurd (ground arith)
        | inl current ↦
            elim (Result-cases
              (sign_verification_set e now jti stream.aud stream.stream_id state)) [
                | inr (x, unsigned) ↦ absurd (ground arith)
                | inl (token, signed) ↦ (
                  token,
                  ground arith,
                  revalidate_endpoint_sound stream.endpoint_url (ground arith),
                  accepted (request_of stream token) (ground arith),
                )
              ]
      ]

  -- A URL that passes registration under the configured allowlist passes the check at the push while
  -- its host resolves alike. Host names that a URL parses to are in lower case.
  pub revalidate_endpoint_of_validate :
      (url : String)
      → ((p : ParsedUrl)
          → e.urlparse url ≡ some p
          → e.lower (text_or_empty p.hostname) ≡ text_or_empty p.hostname)
      → validate_receiver_endpoint_url e net.resolve url e.settings.ssf_allowed_receiver_hosts
        ≡ ok url
      → revalidate_endpoint e net url ≡ ok true
  unfolding safe_hostname
  revalidate_endpoint_of_validate url lower h =
      let s =
        (validate_receiver_endpoint_url_iff e net.resolve url
            e.settings.ssf_allowed_receiver_hosts).0
          h in
      let same : safe_hostname e url ≡ text_or_empty s.parsed.hostname =
        ground (arith, s.parses, lower s.parsed s.parses) in
      revalidate_endpoint_complete url (record {
        listed = s.host.listed;
        named = ground (arith, same, s.host.named);
        public = subst (IsPublic e net.resolve) (sym same) s.host.public;
      })
