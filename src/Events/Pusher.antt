-- ===== src/Events/Pusher.antt =====
-- app/events/pusher.py: the push of a signed SET to a receiver. The network is an argument, and what
-- is sent is returned beside the result.
pub mod Laws
use Prim.Native.String.{◌++◌}
use ssf_transmitter.Prelude.{
  ℕ, String, Bool, true, false, not, ◌&&◌, ◌||◌, Option, none, some, List, [], ◌∷◌, ltb, leb, ◌==◌,
  string_eq, if◌then◌else◌, truthy, elem, any, is_empty,
}
use ssf_transmitter.Result.{Result, ok, err, unexpected, ◌>>=◌}
use ssf_transmitter.Value.{obj}
use ssf_transmitter.Environment.{Env}
use ssf_transmitter.Crypto.Set.{sign_set, sign_verification_set}
use ssf_transmitter.Database.{Stream}
use ssf_transmitter.Events.Mapper.{MappedEvent}
use ssf_transmitter.Security.Address.{is_blocked_ip}
use ssf_transmitter.Security.Url.{Dns, resolve_host, safe_hostname, receiver_host_allowed}

-- A POST, with its body and its Authorization header.
pub record Request : Type 0 where
  pub url : String
  pub content : String
  pub authorization : Option String

-- `client.post`: a response with its status, an httpx.HTTPError, or another exception.
pub data Reply : Type 0 where
  response : ℕ → Reply
  http_error other_error : Reply

pub record Net : Type 0 where
  pub resolve : String → Dns
  pub post : Request → Reply

unfoldable pub revalidate_endpoint : Env → Net → String → Result Bool
unfolding resolve_host
revalidate_endpoint e net url =
    let allowed_hosts = e.settings.ssf_allowed_receiver_hosts in
    let host = safe_hostname e url in
    if not (is_empty allowed_hosts) && not (receiver_host_allowed e url allowed_hosts)
    then ok false
    else if not (truthy host)
    then ok false
    else do
      ips ← resolve_host net.resolve host
      ok (not (is_empty ips) && not (any (is_blocked_ip e) ips))

unfoldable pub request_of : Stream → String → Request
request_of stream token = record {
  url = stream.endpoint_url;
  content = token;
  authorization =
      if truthy stream.endpoint_token then some ("Bearer " ++ stream.endpoint_token) else none;
}

-- 200 <= status < 300
abbrev pub is_success : ℕ → Bool
is_success status = leb 200 status && ltb status 300

unfoldable pub read_reply : Reply → Result Bool
read_reply (response status) = ok (is_success status)
read_reply http_error = ok false
read_reply other_error = err unexpected

-- The POST that both kinds of SET end in.
unfoldable pub post_set : Net → Stream → String → Result Bool × List Request
unfolding read_reply
post_set net stream token =
    (read_reply (net.post (request_of stream token)), request_of stream token ∷ [])

unfoldable pub push_signed_set : Env → Net → Stream → String → Result Bool × List Request
unfolding post_set
push_signed_set e net stream token = elim (revalidate_endpoint e net stream.endpoint_url) [
  | err x ↦ (err x, [])
  | ok false ↦ (ok false, [])
  | ok true ↦ post_set net stream token
]

-- The SET is not in the list of events that the stream asks for.
abbrev pub is_filtered : Stream → String → Bool
is_filtered stream uri =
    not (is_empty stream.events_requested) && not (elem uri stream.events_requested)

abbrev as_pushed : Result Bool × List Request → Result (Option Bool) × List Request
as_pushed (ok b, sent) = (ok (some b), sent)
as_pushed (err x, sent) = (err x, sent)

unfoldable pub push_set :
    Env
    → Net
    → ℕ
    → String
    → String
    → Stream
    → MappedEvent
    → String
    → Result (Option Bool) × List Request
unfolding push_signed_set
push_set e net now jti spare_txn stream event email =
    if not (stream.status == "enabled") || is_filtered stream event.uri
    then (ok none, [])
    else elim (sign_set e now jti spare_txn event.uri stream.aud email (obj event.payload)
        event.txn) [
          | err _ ↦ (ok (some false), [])
          | ok token ↦ as_pushed (push_signed_set e net stream token)
        ]

unfoldable pub push_verification_set :
    Env → Net → ℕ → String → Stream → Option String → Result Bool × List Request
unfolding post_set
push_verification_set e net now jti stream state =
    elim (revalidate_endpoint e net stream.endpoint_url) [
      | err x ↦ (err x, [])
      | ok false ↦ (ok false, [])
      | ok true ↦ elim (sign_verification_set e now jti stream.aud stream.stream_id state) [
        | err _ ↦ (ok false, [])
        | ok token ↦ post_set net stream token
      ]
    ]
