-- ===== src/Crypto/Keys.antt =====
-- app/crypto.py: the signing key and the JWKS on disk. The generation of a key, SHA-256 in
-- hexadecimal and base64 are arguments. The mode of the key's file is left out.
pub mod Bytes
use ssf_transmitter.Prelude.{
  ℕ, zero, suc, ◌+◌, ◌/◌, ◌%◌, ◌^◌, String, Option, none, some, List, [], ◌∷◌, ◌≡◌, ◌⊎◌, inl, inr,
  ◌≢◌, true, false, truthy, ◌==◌, nat_eq, arith, Option-cases,
}
use ssf_transmitter.Result.{ok}
use ssf_transmitter.Value.{Value, Fields, text, arr, obj, cons, nil, field, end, get, null}
use ssf_transmitter.Environment.{Env}
use ssf_transmitter.Crypto.Set.{load_signing_material}
use ssf_transmitter.Security.Log.{take_text}

-- The two files, where they exist, with the parsed value of the JWKS.
pub record KeyFiles : Type 0 where
  pub private_key : Option String
  pub jwks : Option Value

-- A generated key: both halves as PEM, and the numbers of the public half.
pub record KeyPair : Type 0 where
  pub pem : String
  pub public_pem : String
  pub modulus : ℕ
  pub exponent : ℕ

-- `value.bit_length()`, on fuel that the value itself covers.
unfoldable pub bit_length : ℕ → ℕ → ℕ
bit_length zero value = 0
bit_length (suc fuel) value = elim (value == 0) [
  | true ↦ 0
  | false ↦ suc (bit_length fuel (value / 2))
]

-- `value.to_bytes(count, "big")`
unfoldable pub to_bytes : ℕ → ℕ → List ℕ
to_bytes zero value = []
to_bytes (suc count) value = value / 256 ^ count % 256 ∷ to_bytes count value

-- Base64 without padding, of the bytes.
unfoldable pub b64url_uint : (List ℕ → String) → ℕ → String
unfolding bit_length to_bytes
b64url_uint b64 value = b64 (to_bytes ((bit_length value value + 7) / 8) value)

unfoldable pub key_id : (String → String) → KeyPair → String
unfolding take_text
key_id sha256 pair = take_text 8 (sha256 pair.public_pem)

unfoldable pub public_jwk : (String → String) → (List ℕ → String) → KeyPair → Fields
unfolding key_id b64url_uint
public_jwk sha256 b64 pair = field "kty" (text "RSA") (
    field "use" (text "sig") (
      field "kid" (text (key_id sha256 pair)) (
        field "alg" (text "RS256") (
          field "n" (text (b64url_uint b64 pair.modulus))
            (field "e" (text (b64url_uint b64 pair.exponent)) end)))))

-- The files that are written for a generated key.
abbrev pub new_files : (String → String) → (List ℕ → String) → KeyPair → KeyFiles
new_files sha256 b64 pair = record {
  private_key = some pair.pem;
  jwks = some (obj (field "keys" (arr (cons (obj (public_jwk sha256 b64 pair)) nil)) end));
}

abbrev pub kept_files :
    (String → String)
    → (List ℕ → String)
    → KeyPair
    → KeyFiles
    → Option String
    → Option Value
    → KeyFiles
kept_files sha256 b64 pair files (some pem) (some jwks) = files
kept_files sha256 b64 pair files pem jwks = new_files sha256 b64 pair

unfoldable pub ensure_keys : (String → String) → (List ℕ → String) → KeyPair → KeyFiles → KeyFiles
unfolding public_jwk
ensure_keys sha256 b64 pair files = kept_files sha256 b64 pair files files.private_key files.jwks

-- What the program reads of the files; a file that does not exist raises, as one that holds null does.
unfoldable pub with_files : Env → KeyFiles → Env
with_files e files = record e {
  private_pem = files.private_key;
  jwks = elim files.jwks [ none ↦ null | some jwks ↦ jwks ];
}

-- What is signed with after the keys are ensured: the files as they were, where both existed, and
-- else the generated key under its id.
pub load_signing_material-ensure_keys :
    (e : Env) (sha256 : String → String) (b64 : List ℕ → String) (pair : KeyPair) (files : KeyFiles)
    → truthy (key_id sha256 pair) ≡ true
    → ((files.private_key ≢ none)
        × (files.jwks ≢ none)
        × (ensure_keys sha256 b64 pair files ≡ files))
      ⊎ (load_signing_material (with_files e (ensure_keys sha256 b64 pair files))
          ≡ ok (pair.pem, key_id sha256 pair))
unfolding load_signing_material with_files ensure_keys public_jwk get
load_signing_material-ensure_keys e sha256 b64 pair files named =
    elim (Option-cases files.private_key) [
      | inl no_key ↦ inr (ground arith)
      | inr (pem, found) ↦ elim (Option-cases files.jwks) [
        | inl no_jwks ↦ inr (ground arith)
        | inr (jwks, found') ↦ inl (ground arith, ground arith, ground arith)
      ]
    ]
