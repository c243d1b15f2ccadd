-- ===== src/Tests/Keys.antt =====
-- The theorem on the numbers of a JWK, at a small key and an encoding of bytes that is undone.
use Prim.Native.Char.{code}
use Prim.Native.String.{[], ◌∷◌}
use mathlib.Core.List.{[], ◌∷◌}
use ssf_transmitter.Prelude.{
  ℕ, zero, suc, ◌+◌, String, List, ◌≡◌, ◌∙◌, refl, ap, ◌==◌, nat_eq, if◌then◌else◌, arith,
}
use ssf_transmitter.Value.{text, get}
use ssf_transmitter.Crypto.Keys.{KeyPair, public_jwk}
use ssf_transmitter.Crypto.Keys.Bytes.{from_bytes, public_jwk-numbers}

-- A byte is as many `x` as it is, and a comma.
abbrev digits : ℕ → String → String
digits zero rest = "," ∷ rest
digits (suc n) rest = "x" ∷ digits n rest

abbrev encode : List ℕ → String
encode [] = ""
encode (byte ∷ bytes) = digits byte (encode bytes)

abbrev decode_from : ℕ → String → List ℕ
decode_from n [] = []
decode_from n (c ∷ rest) =
    let more = decode_from (suc n) rest in
    let next = decode_from 0 rest in if code c == 0x78 then more else n ∷ next

decode-digits :
    (m n : ℕ) (rest : String) → decode_from m (digits n rest) ≡ (n + m) ∷ decode_from 0 rest
decode-digits m zero rest = ap (λ k. k ∷ decode_from 0 rest) (omega arith)
decode-digits m (suc n) rest =
    decode-digits (suc m) n rest ∙ ap (λ k. k ∷ decode_from 0 rest) (omega arith)

decode-encode : (bytes : List ℕ) → decode_from 0 (encode bytes) ≡ bytes
decode-encode [] = refl
decode-encode (byte ∷ bytes) =
    decode-digits 0 byte (encode bytes)
    ∙ ap (λ k. k ∷ decode_from 0 (encode bytes)) (omega arith)
    ∙ ap (λ rest. byte ∷ rest) (decode-encode bytes)

abbrev pair : KeyPair
pair = record { pem = "private"; public_pem = "public"; modulus = 3_233; exponent = 65_537 }

public_jwk-numbers_example :
    ((n : String) × (get (public_jwk (λ s. s) encode pair) "n" ≡ text n)
      × (from_bytes (decode_from 0 n) ≡ 3_233))
    × ((m : String) × (get (public_jwk (λ s. s) encode pair) "e" ≡ text m)
        × (from_bytes (decode_from 0 m) ≡ 65_537))
public_jwk-numbers_example = public_jwk-numbers (λ s. s) encode (decode_from 0) pair decode-encode
