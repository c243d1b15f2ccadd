-- ===== src/Security/Address.antt =====
-- app/security/url_validation.py: which addresses are never acceptable as a receiver.
pub mod Ranges
pub mod Embedded
use ssf_transmitter.Prelude.{
  ℕ, ◌+◌, ◌-◌, ◌*◌, ◌/◌, ◌%◌, ◌^◌, String, Bool, true, false, Option, none, some, List, [], ◌∷◌,
  any, nat_beq, if◌then◌else◌,
}
use ssf_transmitter.Environment.{Env, Address, v4, v6}

-- `ip_network`: the first address and the length of the prefix.
pub data Network : Type 0 where
  net4 net6 : ℕ → ℕ → Network

-- The number of a dotted address.
abbrev pub ip4 : ℕ → ℕ → ℕ → ℕ → ℕ
ip4 a b c d = a * 2 ^ 24 + b * 2 ^ 16 + c * 2 ^ 8 + d

abbrev pub blocked_networks : List Network
blocked_networks =
    net4 (ip4 0 0 0 0) 8
    ∷ net4 (ip4 10 0 0 0) 8
    ∷ net4 (ip4 100 64 0 0) 10
    ∷ net4 (ip4 127 0 0 0) 8
    ∷ net4 (ip4 169 254 0 0) 16
    ∷ net4 (ip4 172 16 0 0) 12
    ∷ net4 (ip4 192 0 0 0) 24
    ∷ net4 (ip4 192 0 2 0) 24
    ∷ net4 (ip4 192 168 0 0) 16
    ∷ net4 (ip4 198 18 0 0) 15
    ∷ net4 (ip4 198 51 100 0) 24
    ∷ net4 (ip4 203 0 113 0) 24
    ∷ net4 (ip4 224 0 0 0) 4
    ∷ net4 (ip4 240 0 0 0) 4
    ∷ net4 (ip4 255 255 255 255) 32
    ∷ net6 1 128
    ∷ net6 (0xfc00 * 2 ^ 112) 7
    ∷ net6 (0xfe80 * 2 ^ 112) 10
    ∷ net6 (0xff00 * 2 ^ 112) 8
    ∷ []

abbrev pub ipv4_embedding_networks : List Network
ipv4_embedding_networks = net6 0 96 ∷ net6 (0x64 * 2 ^ 112 + 0xff9b * 2 ^ 96) 96 ∷ []

-- `addr in net`: false where the versions differ.
abbrev pub in_network : Address → Network → Bool
in_network (v4 a) (net4 base prefix) = nat_beq (a / 2 ^ (32 - prefix)) (base / 2 ^ (32 - prefix))
in_network (v6 a) (net6 base prefix) = nat_beq (a / 2 ^ (128 - prefix)) (base / 2 ^ (128 - prefix))
in_network (v4 a) (net6 base prefix) = false
in_network (v6 a) (net4 base prefix) = false

-- The IPv4 address inside an IPv6 address: `ipv4_mapped`, `sixtofour`, the client of `teredo`, and
-- the low 32 bits in the two networks above.
unfoldable pub embedded : ℕ → Option ℕ
embedded a =
    if nat_beq (a / 2 ^ 32) 0xffff
    then some (a % 2 ^ 32)
    else if nat_beq (a / 2 ^ 112) 0x2002
    then some (a / 2 ^ 80 % 2 ^ 32)
    else if nat_beq (a / 2 ^ 96) 0x20010000
    then some (2 ^ 32 - 1 - a % 2 ^ 32)
    else if any (in_network (v6 a)) ipv4_embedding_networks
    then some (a % 2 ^ 32)
    else none

unfoldable pub unwrap : Address → Address
unwrap (v4 a) = v4 a
unwrap (v6 a) = elim (embedded a) [ none ↦ v6 a | some b ↦ v4 b ]

unfoldable pub is_blocked_address : Address → Bool
is_blocked_address address = any (in_network (unwrap address)) blocked_networks

-- A text that is no address counts as blocked.
unfoldable pub is_blocked_ip : Env → String → Bool
unfolding is_blocked_address
is_blocked_ip e ip = elim (e.ip_address ip) [
  | none ↦ true
  | some address ↦ is_blocked_address address
]
