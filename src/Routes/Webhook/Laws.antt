-- ===== src/Routes/Webhook/Laws.antt =====
-- No webhook is served that is not authentic and within the limit.
use mathlib.Core.List.{append_assoc, append-nil}
use ssf_transmitter.Prelude.{
  ℕ, ◌+◌, ◌≤◌, ◌≡◌, ◌↔◌, ◌⊎◌, inl, inr, sym, ◌∙◌, ap, subst, true, false, List, [], ◌∷◌, ◌++◌,
  arith, Option, none, some, String, Option-cases, refl, partition, truthy, text_or_empty,
  after_prefix, length, length-append, Bool-cases, eq_iff, ltb, ◌==◌, string_eq,
}
use ssf_transmitter.Result.{ok, Result-cases}
use ssf_transmitter.Value.{Fields}
use ssf_transmitter.Environment.{Env}
use ssf_transmitter.Database.{Db}
use ssf_transmitter.Database.Ops.{Op}
use ssf_transmitter.Routes.Webhook.{
  Request, Reply, max_body_bytes, is_oversized, read_chunks, read_body_within_limit,
  verify_bearer_token, verify_hmac_signature, authenticate_webhook, parse_webhook_json, dispatch,
  authentik_webhook,
}

-- The chunks of a body together.
abbrev pub join : List (List ℕ) → List ℕ
join [] = []
join (chunk ∷ chunks) = chunk ++ join chunks

read_chunks_iff :
    (size : ℕ) (body : List ℕ) (chunks : List (List ℕ)) (r : List ℕ)
    → size ≤ max_body_bytes
    → (read_chunks size body chunks ≡ ok r)
      ↔ ((r ≡ body ++ join chunks) × (size + length (join chunks) ≤ max_body_bytes))
unfolding read_chunks
read_chunks_iff size body [] r h = ground (arith, append-nil body)
read_chunks_iff size body (chunk ∷ chunks) r h =
    elim (Bool-cases (ltb max_body_bytes (size + length chunk))) [
      | inl over ↦ ground (arith, length-append chunk (join chunks))
      | inr within ↦ ground (
        arith,
        read_chunks_iff (size + length chunk) (body ++ chunk) chunks r (ground arith),
        append_assoc body chunk (join chunks),
        length-append chunk (join chunks),
      )
    ]

-- A body is read exactly when neither its declared length nor the bytes that arrive exceed 64 KiB,
-- and then it is the chunks in their order.
pub read_body_within_limit_iff :
    (request : Request) (body : List ℕ)
    → (read_body_within_limit request ≡ ok body) ↔ (
        (is_oversized request.content_length ≡ false)
        × (body ≡ join request.chunks)
        × (length (join request.chunks) ≤ max_body_bytes))
unfolding read_body_within_limit
read_body_within_limit_iff request body =
    ground (arith, read_chunks_iff 0 [] request.chunks body (omega arith))

-- The header is the word `Bearer`, in any case, a space, and the configured token, which is not empty.
pub record IsBearer (e : Env) (authorization : Option String) : Type 0 where
  pub scheme : String
  pub header : String
  pub given : authorization ≡ some header
  pub parts : partition header ≡ (scheme, text_or_empty e.settings.ssf_webhook_token)
  pub bearer : e.lower scheme ≡ "bearer"
  pub some_token : truthy (text_or_empty e.settings.ssf_webhook_token) ≡ true

-- The header is `sha256=` and the HMAC of the body under the configured secret.
abbrev pub IsSigned : Env → List ℕ → Option String → Type 0
IsSigned e body signature =
    after_prefix "sha256=" (text_or_empty signature)
    ≡ some (e.hmac_sha256 e.settings.ssf_webhook_secret body)

verify_bearer_token-IsBearer :
    (e : Env) (authorization : Option String)
    → verify_bearer_token e authorization ≡ true
    → IsBearer e authorization
unfolding verify_bearer_token
verify_bearer_token-IsBearer e none h = absurd (ground arith)
verify_bearer_token-IsBearer e (some header) h =
    let (scheme, token) = partition header in
    let expected = text_or_empty e.settings.ssf_webhook_token in
    let same : (partition header).1 ≡ expected =
      (eq_iff (partition header).1 expected).0 (ground arith) in
    record {
      scheme = (partition header).0;
      header = header;
      given = refl;
      parts = ap (λ t. ((partition header).0, t)) same;
      bearer = (eq_iff (e.lower (partition header).0) "bearer").0 (ground arith);
      some_token = ground arith;
    }

verify_hmac_signature-IsSigned :
    (e : Env) (body : List ℕ) (signature : Option String)
    → verify_hmac_signature e body signature ≡ true
    → IsSigned e body signature
unfolding verify_hmac_signature
verify_hmac_signature-IsSigned e body signature h =
    elim (Option-cases (after_prefix "sha256=" (text_or_empty signature))) [
      | inl other ↦ absurd (ground arith)
      | inr (provided, found) ↦
          let same =
            (eq_iff (e.hmac_sha256 e.settings.ssf_webhook_secret body) provided).0 (ground arith) in
          found ∙ ap some (sym same)
    ]

-- What each mode asks of a request.
abbrev pub IsAuthentic : Env → Request → List ℕ → Type 0
IsAuthentic e request body =
    (e.settings.ssf_webhook_auth_mode ≡ "bearer") × IsBearer e request.authorization
    ⊎ (e.settings.ssf_webhook_auth_mode ≡ "hmac") × IsSigned e body request.x_authentik_signature
    ⊎ (e.settings.ssf_webhook_auth_mode ≡ "unsigned")

authenticate_webhook_sound :
    (e : Env) (request : Request) (body : List ℕ)
    → authenticate_webhook e request body ≡ ok tt
    → IsAuthentic e request body
unfolding authenticate_webhook
authenticate_webhook_sound e request body h =
    let mode = e.settings.ssf_webhook_auth_mode in
    elim (Bool-cases (mode == "bearer")) [
      | inl b ↦ inl (
        (eq_iff mode "bearer").0 b,
        verify_bearer_token-IsBearer e request.authorization (ground arith),
      )
      | inr no_b ↦ elim (Bool-cases (mode == "hmac")) [
        | inl m ↦ inr (
            inl (
              (eq_iff mode "hmac").0 m,
              verify_hmac_signature-IsSigned e body request.x_authentik_signature (ground arith),
            ))
        | inr no_m ↦ inr (inr ((eq_iff mode "unsigned").0 (ground arith)))
      ]
    ]

-- A webhook that is answered with a reply, and not refused, was within the size limit, authentic in
-- the configured mode, and a JSON object; what it asks for is done from that object alone.
pub authentik_webhook-IsAuthentic :
    (e : Env) (now : ℕ) (during : List Op) (request : Request) (db db' : Db) (reply : Reply)
    → authentik_webhook e now during request db ≡ ok (reply, db')
    → (length (join request.chunks) ≤ max_body_bytes)
      × IsAuthentic e request (join request.chunks)
      × ((payload : Fields) × (parse_webhook_json e (join request.chunks) ≡ ok payload)
          × (dispatch e now during payload db ≡ ok (reply, db')))
unfolding authentik_webhook
authentik_webhook-IsAuthentic e now during request db db' reply h =
    elim (Result-cases (read_body_within_limit request)) [
      | inr (x, refused) ↦ absurd (ground arith)
      | inl (body, read) ↦ elim (Result-cases (authenticate_webhook e request body)) [
        | inr (x, refused) ↦ absurd (ground arith)
        | inl (_, authentic) ↦ elim (Result-cases (parse_webhook_json e body)) [
          | inr (x, refused) ↦ absurd (ground arith)
          | inl (payload, parsed) ↦
              let (_, whole, small) = (read_body_within_limit_iff request body).0 read in
              (
                small,
                subst (IsAuthentic e request) whole
                    (authenticate_webhook_sound e request body authentic),
                (payload, ap (parse_webhook_json e) (sym whole) ∙ parsed, ground arith),
              )
        ]
      ]
    ]
