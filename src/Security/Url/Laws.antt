-- ===== src/Security/Url/Laws.antt =====
-- Which receiver URLs pass, by an independent description of a safe endpoint.
use ssf_transmitter.Prelude.{
  String, ◌≡◌, ◌↔◌, ◌⊎◌, true, false, some, List, arith, truthy, text_or_empty, elem, any, is_empty,
  Option-cases, eq_iff, inl, inr,
}
use ssf_transmitter.Result.{ok, Result-cases}
use ssf_transmitter.Environment.{Env, ParsedUrl}
use ssf_transmitter.Security.Address.{is_blocked_ip}
use ssf_transmitter.Security.Url.{
  Dns, found, safe_hostname, blocked_hostnames, is_blocked_literal, reject_blocked_resolved_ips,
  validate_host, validate_receiver_endpoint_url,
}

-- What makes the addresses of a host safe: there is one, and none lies in a blocked network.
pub record IsPublic (e : Env) (dns : String → Dns) (host : String) : Type 0 where
  pub ips : List String
  pub resolves : dns host ≡ found ips
  pub some_ip : is_empty ips ≡ false
  pub none_blocked : any (is_blocked_ip e) ips ≡ false

pub record IsSafeHost (e : Env) (dns : String → Dns) (url : String) (allowed : List String)
    (host : String) : Type 0 where
  pub named : truthy host ≡ true
  pub not_internal : elem (e.lower host) blocked_hostnames ≡ false
  pub literal : is_blocked_literal e host ≡ false
  pub listed : (is_empty allowed ≡ true) ⊎ (elem (safe_hostname e url) allowed ≡ true)
  pub public : IsPublic e dns host

pub record IsSafeUrl (e : Env) (dns : String → Dns) (url : String) (allowed : List String)
    : Type 0 where
  pub parsed : ParsedUrl
  pub parses : e.urlparse url ≡ some parsed
  pub given : truthy url ≡ true
  pub https : parsed.scheme ≡ "https"
  pub no_username : truthy (text_or_empty parsed.username) ≡ false
  pub no_password : truthy (text_or_empty parsed.password) ≡ false
  pub no_fragment : truthy parsed.fragment ≡ false
  pub host : IsSafeHost e dns url allowed (text_or_empty parsed.hostname)

module _ (e : Env) (dns : String → Dns) (url : String) (allowed : List String) where
  reject_blocked_resolved_ips_sound :
      (host : String) {ips : List String}
      → reject_blocked_resolved_ips e dns host ≡ ok ips
      → IsPublic e dns host
  unfolding reject_blocked_resolved_ips
  reject_blocked_resolved_ips_sound host {ips} h = record {
    ips = ips;
    resolves = ground arith;
    some_ip = ground arith;
    none_blocked = ground arith;
  }

  reject_blocked_resolved_ips_complete :
      (host : String)
      → (p : IsPublic e dns host) → reject_blocked_resolved_ips e dns host ≡ ok p.ips
  unfolding reject_blocked_resolved_ips
  reject_blocked_resolved_ips_complete host p = ground arith

  validate_host_sound :
      (host : String) {u : String}
      → validate_host e dns url allowed host ≡ ok u
      → (u ≡ url) × IsSafeHost e dns url allowed host
  unfolding validate_host
  validate_host_sound host h = elim (Result-cases (reject_blocked_resolved_ips e dns host)) [
    | inl (ips, resolved) ↦ (
      ground arith,
      record {
        named = ground arith;
        not_internal = ground arith;
        literal = ground arith;
        listed = ground arith;
        public = reject_blocked_resolved_ips_sound host resolved;
      },
    )
    | inr (x, refused) ↦ absurd (ground arith)
  ]

  validate_host_complete :
      (host : String)
      → IsSafeHost e dns url allowed host
      → validate_host e dns url allowed host ≡ ok url
  unfolding validate_host
  validate_host_complete host s = ground (arith, reject_blocked_resolved_ips_complete host s.public)

  pub validate_sound :
      {u : String}
      → validate_receiver_endpoint_url e dns url allowed ≡ ok u
      → (u ≡ url) × IsSafeUrl e dns url allowed
  unfolding validate_receiver_endpoint_url
  validate_sound {u} h = elim (Option-cases (e.urlparse url)) [
    | inl unparsed ↦ absurd (ground arith)
    | inr (p, parsed) ↦
        let inner : validate_host e dns url allowed (text_or_empty p.hostname) ≡ ok u =
          ground arith in
        let (same, safe) = validate_host_sound (text_or_empty p.hostname) inner in
        (
          same,
          record {
            parsed = p;
            parses = parsed;
            given = ground arith;
            https = ground (arith, eq_iff p.scheme "https");
            no_username = ground arith;
            no_password = ground arith;
            no_fragment = ground arith;
            host = safe;
          },
        )
  ]

  validate_complete :
      IsSafeUrl e dns url allowed → validate_receiver_endpoint_url e dns url allowed ≡ ok url
  unfolding validate_receiver_endpoint_url
  validate_complete s = ground (
    arith,
    eq_iff s.parsed.scheme "https",
    validate_host_complete (text_or_empty s.parsed.hostname) s.host,
  )

  -- A URL passes exactly when it is safe: it parses with the scheme https, no credentials and no
  -- fragment, its host is neither an internal name nor a blocked address nor outside a non-empty
  -- allowlist, and the host resolves to addresses of which none is blocked.
  pub validate_receiver_endpoint_url_iff :
      (validate_receiver_endpoint_url e dns url allowed ≡ ok url) ↔ IsSafeUrl e dns url allowed
  validate_receiver_endpoint_url_iff = ((λ h. (validate_sound h).1), validate_complete)
