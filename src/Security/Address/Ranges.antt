-- ===== src/Security/Address/Ranges.antt =====
-- The blocked IPv4 networks as ranges of addresses.
use ssf_transmitter.Prelude.{
  ℕ, ◌+◌, ◌-◌, ◌*◌, ◌<◌, ◌≡◌, Bool, false, leb, ◌&&◌, ◌||◌, arith, ◌^◌, nat_beq, ◌/◌, List, [], ◌∷◌,
  any,
}
use ssf_transmitter.Environment.{v4}
use ssf_transmitter.Security.Address.{ip4, is_blocked_address, unwrap}

abbrev between : ℕ → ℕ → ℕ → Bool
between lo a hi = leb lo a && leb a hi

-- The first and the last address of each range, where neighbouring networks are joined.
abbrev pub blocked_ranges : List (ℕ × ℕ)
blocked_ranges =
    (ip4 0 0 0 0, ip4 0 255 255 255)
    ∷ (ip4 10 0 0 0, ip4 10 255 255 255)
    ∷ (ip4 100 64 0 0, ip4 100 127 255 255)
    ∷ (ip4 127 0 0 0, ip4 127 255 255 255)
    ∷ (ip4 169 254 0 0, ip4 169 254 255 255)
    ∷ (ip4 172 16 0 0, ip4 172 31 255 255)
    ∷ (ip4 192 0 0 0, ip4 192 0 0 255)
    ∷ (ip4 192 0 2 0, ip4 192 0 2 255)
    ∷ (ip4 192 168 0 0, ip4 192 168 255 255)
    ∷ (ip4 198 18 0 0, ip4 198 19 255 255)
    ∷ (ip4 198 51 100 0, ip4 198 51 100 255)
    ∷ (ip4 203 0 113 0, ip4 203 0 113 255)
    ∷ (ip4 224 0 0 0, ip4 255 255 255 255)
    ∷ []

abbrev pub in_blocked_range : ℕ → Bool
in_blocked_range a = any (λ r. between r.0 a r.1) blocked_ranges

-- One network: the addresses that share the prefix are a range.
network_range : (a q m : ℕ) → 0 < m → nat_beq (a / m) q ≡ between (q * m) a (q * m + (m - 1))
network_range a q m h = grind arith

last_range :
    (a : ℕ)
    → a < 2 ^ 32
    → (nat_beq (a / 2 ^ 28) 14
        || (nat_beq (a / 2 ^ 28) 15 || (nat_beq (a / 1) (2 ^ 32 - 1) || false)))
      ≡ (between (ip4 224 0 0 0) a (ip4 255 255 255 255) || false)
last_range a h = ground arith

-- Of the 32-bit addresses, exactly those of the ranges are blocked.
pub is_blocked_address-v4 : (a : ℕ) → a < 2 ^ 32 → is_blocked_address (v4 a) ≡ in_blocked_range a
unfolding is_blocked_address unwrap
is_blocked_address-v4 a h = rw (
  network_range a 0 (2 ^ 24) (omega arith),
  network_range a 10 (2 ^ 24) (omega arith),
  network_range a 401 (2 ^ 22) (omega arith),
  network_range a 127 (2 ^ 24) (omega arith),
  network_range a 43518 (2 ^ 16) (omega arith),
  network_range a 2753 (2 ^ 20) (omega arith),
  network_range a 12582912 (2 ^ 8) (omega arith),
  network_range a 12582914 (2 ^ 8) (omega arith),
  network_range a 49320 (2 ^ 16) (omega arith),
  network_range a 25353 (2 ^ 17) (omega arith),
  network_range a 12989284 (2 ^ 8) (omega arith),
  network_range a 13303921 (2 ^ 8) (omega arith),
  last_range a h,
)
