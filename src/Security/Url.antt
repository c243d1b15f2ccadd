-- ===== src/Security/Url.antt =====
-- app/security/url_validation.py: the checks on a receiver's URL when a stream is registered, with
-- the helpers that the push shares.
pub mod Laws
use ssf_transmitter.Prelude.{
  ℕ, String, Bool, true, false, not, ◌||◌, ◌&&◌, Option, none, some, List, [], ◌∷◌, ◌==◌, string_eq,
  if◌then◌else◌, truthy, text_or_empty, elem, any, is_empty,
}
use ssf_transmitter.Result.{Result, ok, err, value_error, ◌>>=◌, ◌>>◌, raise_if}
use ssf_transmitter.Environment.{Env, ParsedUrl}
use ssf_transmitter.Security.Address.{is_blocked_ip}

abbrev pub blocked_hostnames : List String
blocked_hostnames = "localhost" ∷ "metadata.google.internal" ∷ "169.254.169.254" ∷ []

-- `socket.getaddrinfo`: the addresses, an OSError, or a ValueError (an undecodable name).
pub data Dns : Type 0 where
  found : List String → Dns
  os_error bad_name : Dns

unfoldable pub resolve_host : (String → Dns) → String → Result (List String)
resolve_host dns host = elim (dns host) [
  | found ips ↦ ok ips
  | os_error ↦ ok []
  | bad_name ↦ err (value_error "host name cannot be encoded")
]

unfoldable pub safe_hostname : Env → String → String
safe_hostname e url = elim (e.urlparse url) [
  | none ↦ ""
  | some parsed ↦ e.lower (text_or_empty parsed.hostname)
]

unfoldable pub receiver_host_allowed : Env → String → List String → Bool
receiver_host_allowed e url allowed_hosts =
    if is_empty allowed_hosts then true else elem (safe_hostname e url) allowed_hosts

unfoldable pub reject_unsafe_scheme_or_parts : ParsedUrl → Result (Unit {0})
reject_unsafe_scheme_or_parts parsed = do
  raise_if (not (parsed.scheme == "https")) (value_error "endpoint_url scheme must be 'https'")
  raise_if (truthy (text_or_empty parsed.username) || truthy (text_or_empty parsed.password))
      (value_error "endpoint_url must not contain credentials")
  raise_if (truthy parsed.fragment) (value_error "endpoint_url must not contain a fragment (#)")

-- A host that is an address is blocked with its network; any other text is not an address.
abbrev pub is_blocked_literal : Env → String → Bool
is_blocked_literal e host = elim (e.ip_address host) [
  | none ↦ false
  | some address ↦ is_blocked_ip e (e.show_address address)
]

unfoldable pub reject_blocked_host_literal : Env → String → Result (Unit {0})
reject_blocked_host_literal e host = do
  raise_if (elem (e.lower host) blocked_hostnames) (value_error "endpoint_url host is not allowed")
  raise_if (is_blocked_literal e host) (value_error "endpoint_url host is a blocked IP address")

unfoldable pub reject_blocked_resolved_ips : Env → (String → Dns) → String → Result (List String)
unfolding resolve_host
reject_blocked_resolved_ips e dns host = do
  resolved_ips ← resolve_host dns host
  raise_if (is_empty resolved_ips) (value_error "endpoint_url host did not resolve")
  raise_if (any (is_blocked_ip e) resolved_ips)
      (value_error "endpoint_url host resolves to blocked IP")
  ok resolved_ips

-- The checks on the host of a URL that has been parsed.
validate_host : Env → (String → Dns) → String → List String → String → Result String
unfolding reject_blocked_host_literal receiver_host_allowed
validate_host e dns url allowed_hosts host = do
  raise_if (not (truthy host)) (value_error "endpoint_url has no host")
  reject_blocked_host_literal e host
  raise_if (not (is_empty allowed_hosts) && not (receiver_host_allowed e url allowed_hosts))
      (value_error "endpoint_url host is not in SSF_ALLOWED_RECEIVER_HOSTS allowlist")
  _ ← reject_blocked_resolved_ips e dns host
  ok url

-- An allowlist of `None` is the empty list.
unfoldable pub validate_receiver_endpoint_url :
    Env → (String → Dns) → String → List String → Result String
unfolding reject_unsafe_scheme_or_parts validate_host
validate_receiver_endpoint_url e dns url allowed_hosts = do
  raise_if (not (truthy url)) (value_error "endpoint_url must not be empty")
  elim (e.urlparse url) [
    | none ↦ err (value_error "endpoint_url is not a valid URL")
    | some parsed ↦ do
      reject_unsafe_scheme_or_parts parsed
      validate_host e dns url allowed_hosts (text_or_empty parsed.hostname)
  ]
