-- ===== src/Security/Address/Embedded.antt =====
-- An IPv6 address that carries an IPv4 address is blocked as that address is.
use ssf_transmitter.Prelude.{ℕ, ◌+◌, ◌-◌, ◌*◌, ◌<◌, ◌≡◌, ◌^◌, some, ap, any, arith}
use ssf_transmitter.Environment.{v4, v6}
use ssf_transmitter.Security.Address.{
  embedded, unwrap, is_blocked_address, in_network, blocked_networks,
}

unwrap-embedded : (a b : ℕ) → embedded a ≡ some b → unwrap (v6 a) ≡ unwrap (v4 b)
unfolding unwrap
unwrap-embedded a b h = rw (h, unwrap)

-- An IPv6 address that carries an IPv4 address is blocked exactly when that address is.
pub is_blocked_address-embedded :
    (a b : ℕ) → embedded a ≡ some b → is_blocked_address (v6 a) ≡ is_blocked_address (v4 b)
unfolding is_blocked_address
is_blocked_address-embedded a b h =
    ap (λ x. any (in_network x) blocked_networks) (unwrap-embedded a b h)

-- The IPv6 forms of an IPv4 address: mapped, compatible, NAT64, 6to4 with any further bits, and
-- Teredo with any server, flags and port.
pub embedded_forms :
    (b low server flags port : ℕ)
    → b < 2 ^ 32
    → low < 2 ^ 80
    → server < 2 ^ 32
    → flags < 2 ^ 16
    → port < 2 ^ 16
    → (embedded (0xffff * 2 ^ 32 + b) ≡ some b)
      × (embedded b ≡ some b)
      × (embedded (0x64 * 2 ^ 112 + 0xff9b * 2 ^ 96 + b) ≡ some b)
      × (embedded (0x2002 * 2 ^ 112 + b * 2 ^ 80 + low) ≡ some b)
      × (embedded (
            0x20010000 * 2 ^ 96
            + server * 2 ^ 64
            + flags * 2 ^ 48
            + port * 2 ^ 32
            + (2 ^ 32 - 1 - b))
          ≡ some b)
unfolding embedded
embedded_forms b low server flags port hb hl hs hf hp =
    (ground arith, ground arith, ground arith, ground arith, ground arith)
