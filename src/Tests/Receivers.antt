-- ===== src/Tests/Receivers.antt =====
-- Theorems on receivers and their addresses, at the receiver of `Setting`.
use ssf_transmitter.Prelude.{◌+◌, ◌*◌, ◌^◌, ◌≡◌, ◌↔◌, refl, true, some, [], ◌∷◌, arith}
use ssf_transmitter.Result.{ok}
use ssf_transmitter.Environment.{ParsedUrl, v4}
use ssf_transmitter.Security.Address.{ip4, embedded, is_blocked_address}
use ssf_transmitter.Security.Address.Ranges.{in_blocked_range, is_blocked_address-v4}
use ssf_transmitter.Security.Url.{validate_receiver_endpoint_url}
use ssf_transmitter.Security.Url.Laws.{IsSafeUrl, validate_receiver_endpoint_url_iff}
use ssf_transmitter.Events.Pusher.{revalidate_endpoint}
use ssf_transmitter.Events.Pusher.Laws.{revalidate_endpoint_of_validate}
use ssf_transmitter.Prelude.{text_or_empty}
use ssf_transmitter.Tests.Setting.{env, receiver, dns, net, receiver-IsSafeUrl}

is_blocked_address-v4_example :
    is_blocked_address (v4 (ip4 10 0 0 1)) ≡ in_blocked_range (ip4 10 0 0 1)
is_blocked_address-v4_example = is_blocked_address-v4 (ip4 10 0 0 1) (omega arith)

loopback_mapped : embedded (0xffff * 2 ^ 32 + ip4 127 0 0 1) ≡ some (ip4 127 0 0 1)
unfolding embedded
loopback_mapped = refl

validate_receiver_endpoint_url_iff_example :
    (validate_receiver_endpoint_url env dns receiver.endpoint_url ("rx.example" ∷ [])
      ≡ ok receiver.endpoint_url)
    ↔ IsSafeUrl env dns receiver.endpoint_url ("rx.example" ∷ [])
validate_receiver_endpoint_url_iff_example =
    validate_receiver_endpoint_url_iff env dns receiver.endpoint_url ("rx.example" ∷ [])

lower_law :
    (p : ParsedUrl)
    → env.urlparse receiver.endpoint_url ≡ some p
    → env.lower (text_or_empty p.hostname) ≡ text_or_empty p.hostname
lower_law p h = refl

registered :
    validate_receiver_endpoint_url env net.resolve receiver.endpoint_url
      env.settings.ssf_allowed_receiver_hosts
    ≡ ok receiver.endpoint_url
registered =
    (validate_receiver_endpoint_url_iff env dns receiver.endpoint_url ("rx.example" ∷ [])).1
      receiver-IsSafeUrl

revalidate_endpoint_of_validate_example :
    revalidate_endpoint env net receiver.endpoint_url ≡ ok true
revalidate_endpoint_of_validate_example =
    revalidate_endpoint_of_validate env net receiver.endpoint_url lower_law registered
