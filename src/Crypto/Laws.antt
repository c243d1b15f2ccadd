-- ===== src/Crypto/Laws.antt =====
-- What comes back from storage: the encryption of `app/crypto.py` is undone by its decryption.
use Prim.Native.String.{◌++◌}
use ssf_transmitter.Prelude.{
  String, ◌≡◌, ◌↔◌, refl, true, Bool-cases, inl, inr, none, some, arith, truthy, truthy_iff,
  truthy-append, after_prefix-append,
}
use ssf_transmitter.Result.{ok, err, token_undecryptable}
use ssf_transmitter.Environment.{Env}
use ssf_transmitter.Crypto.{
  fernet_prefix, token_encryption_key, encrypt_token, encrypt_sensitive_data,
  decrypt_sensitive_data, decrypt_token, is_valid_fernet_token_format,
}

-- Fernet's own law, under the key that the program uses.
abbrev pub FernetRoundTrip : Env → Type 0
FernetRoundTrip e =
    (p : String)
    → e.fernet_decrypt (token_encryption_key e) (e.fernet_encrypt (token_encryption_key e) p)
      ≡ some p

module _ (e : Env) (fernet : FernetRoundTrip e) where
  -- Where Fernet decryption undoes encryption, a token of any text, the empty one included, is
  -- decrypted from its stored form to itself.
  pub decrypt_token-encrypt_token : (p : String) → decrypt_token e (encrypt_token e p) ≡ ok p
  unfolding decrypt_token encrypt_token
  decrypt_token-encrypt_token p = elim (Bool-cases (truthy p)) [
    | inl full ↦ rw full (
        ground (
          arith,
          after_prefix-append fernet_prefix (e.fernet_encrypt (token_encryption_key e) p),
          truthy-append fernet_prefix (e.fernet_encrypt (token_encryption_key e) p) refl,
          fernet p,
        ))
    | inr empty ↦ rw empty (ground (arith, (truthy_iff p).0 empty))
  ]

  pub decrypt_sensitive_data-encrypt_sensitive_data :
      (p : String) → decrypt_sensitive_data e (encrypt_sensitive_data e p) ≡ ok p
  unfolding decrypt_sensitive_data encrypt_sensitive_data
  decrypt_sensitive_data-encrypt_sensitive_data p = ground (
    arith,
    after_prefix-append fernet_prefix (e.fernet_encrypt (token_encryption_key e) p),
    fernet p,
  )

-- A stored token is refused only where it carries the prefix, has the shape of a Fernet token
-- behind it, and the key does not open it; otherwise some text comes back.
pub decrypt_token_refuses :
    (e : Env) (blob : String)
    → (decrypt_token e (fernet_prefix ++ blob) ≡ err token_undecryptable) ↔ (
        (is_valid_fernet_token_format e blob ≡ true)
        × (e.fernet_decrypt (token_encryption_key e) blob ≡ none))
unfolding decrypt_token
decrypt_token_refuses e blob =
    ground (arith, after_prefix-append fernet_prefix blob, truthy-append fernet_prefix blob refl)
