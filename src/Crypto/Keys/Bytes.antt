-- ===== src/Crypto/Keys/Bytes.antt =====
-- The bytes of a number that `_b64url_uint` encodes: no byte of the number is lost.
use ssf_transmitter.Prelude.{
  String, ℕ, zero, suc, ◌+◌, ◌*◌, ◌/◌, ◌%◌, ◌^◌, ◌≤◌, ◌<◌, List, [], ◌∷◌, ◌≡◌, ◌∙◌, refl, sym, ap,
  nat_eq, arith,
}
use native.Mathlib.Nat.{
  pow-suc, pow-le-pow_right, div-one, div-eq_of_lt, div-div-eq-div-mul, div-add-mod',
}
use ssf_transmitter.Crypto.Keys.{KeyPair, bit_length, to_bytes, b64url_uint, public_jwk}
use ssf_transmitter.Value.{text, get}

-- The number of big-endian bytes, behind a number already read.
unfoldable number : ℕ → List ℕ → ℕ
number acc [] = acc
number acc (byte ∷ bytes) = number (acc * 256 + byte) bytes

-- `int.from_bytes(bytes, "big")`
unfoldable pub from_bytes : List ℕ → ℕ
unfolding number
from_bytes bytes = number 0 bytes

-- One byte more is the part above it and the byte.
next_byte :
    (count value : ℕ)
    → value / 256 ^ suc count * 256 + value / 256 ^ count % 256 ≡ value / 256 ^ count
next_byte count value =
    rw (pow-suc 256 count, sym (div-div-eq-div-mul value (256 ^ count) 256))
      (div-add-mod' (value / 256 ^ count) 256)

number-to_bytes : (count value : ℕ) → number (value / 256 ^ count) (to_bytes count value) ≡ value
unfolding number to_bytes
number-to_bytes zero value = div-one value
number-to_bytes (suc count) value =
    rw (number, to_bytes, next_byte count value) (number-to_bytes count value)

two_pow-add_four : (n : ℕ) → 2 ^ suc (suc (suc (suc n))) ≡ 2 ^ n * 16
two_pow-add_four n =
    omega (
      arith,
      pow-suc 2 n,
      pow-suc 2 (suc n),
      pow-suc 2 (suc (suc n)),
      pow-suc 2 (suc (suc (suc n))),
    )

two_pow-add_eight : (n : ℕ) → 2 ^ (n + 8) ≡ 2 ^ n * 256
two_pow-add_eight n =
    let same : n + 8 ≡ suc (suc (suc (suc (suc (suc (suc (suc n))))))) = omega arith in
    ap (λ (k : ℕ). 2 ^ k) same
    ∙ omega (arith, two_pow-add_four n, two_pow-add_four (suc (suc (suc (suc n)))))

two_pow-mul_eight : (m : ℕ) → 2 ^ (8 * m) ≡ 256 ^ m
two_pow-mul_eight zero = refl
two_pow-mul_eight (suc m) =
    ap (λ n. 2 ^ n) (omega arith)
    ∙ two_pow-add_eight (8 * m)
    ∙ rw (two_pow-mul_eight m, pow-suc 256 m) refl

-- The bit length is one that the value fits.
bit_length-lt : (fuel value : ℕ) → value ≤ fuel → value < 2 ^ bit_length fuel value
unfolding bit_length
bit_length-lt zero value enough = omega arith
bit_length-lt (suc fuel) zero enough = omega arith
bit_length-lt (suc fuel) (suc value) enough =
    let half = bit_length-lt fuel (suc value / 2) (omega arith) in
    let step : bit_length (suc fuel) (suc value) ≡ suc (bit_length fuel (suc value / 2)) =
      ground arith in
    omega (arith, half, ap (λ (k : ℕ). 2 ^ k) step, pow-suc 2 (bit_length fuel (suc value / 2)))

-- The bytes that the bit length asks for hold the number.
fits_bytes : (value : ℕ) → value < 256 ^ ((bit_length value value + 7) / 8)
fits_bytes value =
    let bits = bit_length value value in
    let count = (bits + 7) / 8 in
    let room : (2 ^ bits) ≤ (2 ^ (8 * count)) = pow-le-pow_right (omega arith) (omega arith) in
    omega (arith, bit_length-lt value value (omega arith), room, two_pow-mul_eight count)

from_bytes-to_bytes :
    (value : ℕ) → from_bytes (to_bytes ((bit_length value value + 7) / 8) value) ≡ value
unfolding from_bytes
from_bytes-to_bytes value =
    let count = (bit_length value value + 7) / 8 in
    ap (λ n. number n (to_bytes count value)) (sym (div-eq_of_lt (fits_bytes value)))
    ∙ number-to_bytes count value

-- The texts of a JWK, read as big-endian bytes, are the numbers of the key, where the decoding of base64
-- undoes its encoding: no bit of the modulus or of the exponent is lost.
pub public_jwk-numbers :
    (sha256 : String → String) (b64 : List ℕ → String) (decode : String → List ℕ) (pair : KeyPair)
    → ((bytes : List ℕ) → decode (b64 bytes) ≡ bytes)
    → ((n : String) × (get (public_jwk sha256 b64 pair) "n" ≡ text n)
        × (from_bytes (decode n) ≡ pair.modulus))
      × ((m : String) × (get (public_jwk sha256 b64 pair) "e" ≡ text m)
          × (from_bytes (decode m) ≡ pair.exponent))
unfolding public_jwk b64url_uint get
public_jwk-numbers sha256 b64 decode pair undoes = (
  (b64url_uint b64 pair.modulus, refl, read pair.modulus),
  (b64url_uint b64 pair.exponent, refl, read pair.exponent),
)
  where
    read : (value : ℕ) → from_bytes (decode (b64url_uint b64 value)) ≡ value
    read value =
        rw (undoes (to_bytes ((bit_length value value + 7) / 8) value)) (from_bytes-to_bytes value)
