-- ===== src/Crypto.antt =====
-- app/crypto.py: the encryption of receiver tokens and queued payloads at rest.
pub mod Laws
pub mod Keys
pub mod Set
use Prim.Native.String.{◌++◌, len}
use ssf_transmitter.Prelude.{
  ℕ, ◌+◌, ◌-◌, ◌%◌, String, Bool, true, false, ◌&&◌, not, Option, none, some, List, [], ◌∷◌, leb,
  nat_beq, if◌then◌else◌, truthy, text_or_empty, or_text, after_prefix, starts_with, length,
}
use ssf_transmitter.Result.{Result, ok, err, token_undecryptable, data_undecryptable, ◌>>=◌}
use ssf_transmitter.Environment.{Env}

abbrev pub fernet_prefix : String
fernet_prefix = "fernet1:"

abbrev pub fernet_blob_prefix : String
fernet_blob_prefix = "gAAAA"

abbrev pub fernet_min_token_bytes : ℕ
fernet_min_token_bytes = 57

abbrev pub fernet_version_byte : ℕ
fernet_version_byte = 0x80

-- `"=" * n` for n below 4
abbrev padding : ℕ → String
padding n =
    if nat_beq n 1 then "=" else if nat_beq n 2 then "==" else if nat_beq n 3 then "===" else ""

has_fernet_bytes : List ℕ → Bool
has_fernet_bytes [] = false
has_fernet_bytes (b ∷ bs) =
    leb fernet_min_token_bytes (length (b ∷ bs)) && nat_beq b fernet_version_byte

module _ (e : Env) where
  unfoldable pub is_valid_fernet_token_format : String → Bool
  unfolding has_fernet_bytes starts_with
  is_valid_fernet_token_format value =
      if starts_with value fernet_blob_prefix
      then elim (e.urlsafe_b64decode (value ++ padding ((4 - len value % 4) % 4))) [
        | none ↦ false
        | some raw ↦ has_fernet_bytes raw
      ]
      else false

  unfoldable pub token_encryption_key : String
  token_encryption_key =
      e.derive_key (
        or_text (text_or_empty e.settings.ssf_token_encryption_key) e.settings.ssf_management_token)

  unfoldable pub encrypt_token : String → String
  encrypt_token plaintext =
      if truthy plaintext
      then fernet_prefix ++ e.fernet_encrypt token_encryption_key plaintext
      else ""

  unfoldable pub encrypt_sensitive_data : String → String
  encrypt_sensitive_data plaintext =
      fernet_prefix ++ e.fernet_encrypt token_encryption_key plaintext

  unfoldable pub decrypt_sensitive_data : String → Result String
  decrypt_sensitive_data ciphertext = elim (after_prefix fernet_prefix ciphertext) [
    | none ↦ err data_undecryptable
    | some blob ↦ elim (e.fernet_decrypt token_encryption_key blob) [
      | none ↦ err data_undecryptable
      | some plaintext ↦ ok plaintext
    ]
  ]

  unfoldable pub decrypt_fernet_blob : String → Result String
  decrypt_fernet_blob blob = elim (e.fernet_decrypt token_encryption_key blob) [
    | none ↦ err token_undecryptable
    | some plaintext ↦ ok plaintext
  ]

  -- A value with no prefix: old ciphertext, or a token stored before encryption at rest.
  decrypt_unprefixed : String → Result String
  decrypt_unprefixed ciphertext =
      if is_valid_fernet_token_format ciphertext
      then elim (e.fernet_decrypt token_encryption_key ciphertext) [
        | none ↦ ok ciphertext
        | some plaintext ↦ ok plaintext
      ]
      else ok ciphertext

  -- A value with the prefix fails closed only if it has the shape of a Fernet token.
  decrypt_prefixed : String → String → Result String
  unfolding decrypt_fernet_blob
  decrypt_prefixed ciphertext blob = elim (decrypt_fernet_blob blob) [
    | ok plaintext ↦ ok plaintext
    | err failure ↦ if is_valid_fernet_token_format blob then err failure else ok ciphertext
  ]

  unfoldable pub decrypt_token : String → Result String
  unfolding decrypt_unprefixed decrypt_prefixed
  decrypt_token ciphertext =
      if truthy ciphertext
      then elim (after_prefix fernet_prefix ciphertext) [
        | none ↦ decrypt_unprefixed ciphertext
        | some blob ↦ decrypt_prefixed ciphertext blob
      ]
      else ok ""
