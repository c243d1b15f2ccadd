-- ===== src/Security/Log/Laws.antt =====
-- What is kept out of the log.
use Prim.Native.Nat.{zero, suc}
use Prim.Native.String.{String, [], ◌∷◌}
use ssf_transmitter.Prelude.{
  ℕ, ◌+◌, ◌≤◌, ◌≡◌, inl, inr, refl, Bool, true, false, ◌&&◌, ltb, any_char-append,
  text_length-append, nat_eq, string_eq, if◌then◌else◌, text_length, any_char, arith, Bool-cases,
}
use ssf_transmitter.Value.{
  Value, Fields, Items, null, boolean, int, number, bytes, text, obj, arr, field, end, cons, nil,
  is_text,
}
use ssf_transmitter.Environment.{Env}
use ssf_transmitter.Security.Log.{
  take_text, is_control, remove_control, cap, suffix, sanitize_for_log, Redaction, is_sensitive_key,
  sanitize, sanitize_fields, sanitize_items,
}

remove_control-clean : (s : String) → any_char is_control (remove_control s) ≡ false
unfolding any_char remove_control
remove_control-clean [] = refl
remove_control-clean (c ∷ s) = ground (arith, remove_control-clean s)

remove_control_of_clean : (s : String) → any_char is_control s ≡ false → remove_control s ≡ s
unfolding any_char remove_control
remove_control_of_clean [] h = refl
remove_control_of_clean (c ∷ s) h = ground (arith, remove_control_of_clean s)

take_text-clean :
    (n : ℕ) (s : String)
    → any_char is_control s ≡ false
    → any_char is_control (take_text n s) ≡ false
unfolding any_char take_text
take_text-clean zero s h = refl
take_text-clean (suc n) [] h = refl
take_text-clean (suc n) (c ∷ s) h = ground (arith, take_text-clean n s)

take_text-le : (n : ℕ) (s : String) → text_length (take_text n s) ≤ n
unfolding text_length take_text
take_text-le zero s = omega arith
take_text-le (suc n) [] = omega arith
take_text-le (suc n) (c ∷ s) = omega (arith, take_text-le n s)

-- A text without control characters, of a length within the bound and that of the suffix.
abbrev IsSafe : ℕ → String → Type 0
IsSafe max_len s = (any_char is_control s ≡ false) × (text_length s ≤ max_len + 14)

cap-IsSafe :
    (max_len : ℕ) (s : String) → any_char is_control s ≡ false → IsSafe max_len (cap max_len s)
unfolding any_char text_length
cap-IsSafe max_len s clean = elim (Bool-cases (ltb max_len (text_length s))) [
  | inr short ↦ (ground arith, ground arith)
  | inl long ↦
      let kept = take_text-clean max_len s clean in
      let bound = take_text-le max_len s in
      let joined = any_char-append is_control (take_text max_len s) suffix in
      let sum = text_length-append (take_text max_len s) suffix in (ground arith, ground arith)
]

other-IsSafe : (max_len : ℕ) (s : String) → IsSafe max_len (cap max_len (remove_control s))
other-IsSafe max_len s = cap-IsSafe max_len (remove_control s) (remove_control-clean s)

-- What is logged of a value has no control character and is at most fourteen characters, the length
-- of the mark of a cut, longer than the bound.
sanitize_for_log-IsSafe :
    (e : Env) (v : Value) (max_len : ℕ) → IsSafe max_len (sanitize_for_log e v max_len)
unfolding sanitize_for_log text_length any_char
sanitize_for_log-IsSafe e null max_len = (refl, omega arith)
sanitize_for_log-IsSafe e (text s) max_len = other-IsSafe max_len s
sanitize_for_log-IsSafe e (boolean b) max_len = other-IsSafe max_len (e.show (boolean b))
sanitize_for_log-IsSafe e (int n) max_len = other-IsSafe max_len (e.show (int n))
sanitize_for_log-IsSafe e (number t) max_len = other-IsSafe max_len (e.show (number t))
sanitize_for_log-IsSafe e (bytes b) max_len = other-IsSafe max_len (e.show (bytes b))
sanitize_for_log-IsSafe e (arr vs) max_len = other-IsSafe max_len (e.show (arr vs))
sanitize_for_log-IsSafe e (obj d) max_len = other-IsSafe max_len (e.show (obj d))

-- A text without control characters and within the bound is logged as it is.
pub sanitize_for_log_of_clean :
    (e : Env) (s : String) (max_len : ℕ)
    → any_char is_control s ≡ false
    → text_length s ≤ max_len
    → sanitize_for_log e (text s) max_len ≡ s
unfolding sanitize_for_log
sanitize_for_log_of_clean e s max_len clean short = ground (arith, remove_control_of_clean s clean)

unfoldable mutual
  -- Every sensitive key holds the mark of redaction, at any depth.
  pub no_secrets : Env → Value → Bool
  no_secrets e (obj d) = no_secret_fields e d
  no_secrets e (arr vs) = no_secret_items e vs
  no_secrets e v = true

  pub no_secret_fields : Env → Fields → Bool
  no_secret_fields e end = true
  no_secret_fields e (field key v d) =
      (if is_sensitive_key (e.lower key) then is_text v "[redacted]" else no_secrets e v)
      && no_secret_fields e d

  pub no_secret_items : Env → Items → Bool
  no_secret_items e nil = true
  no_secret_items e (cons v vs) = no_secrets e v && no_secret_items e vs

mutual
  unfolding sanitize no_secrets

  sanitize-no_secrets : (e : Env) (r : Redaction) (v : Value) → no_secrets e (sanitize e r v) ≡ true
  sanitize-no_secrets e r null = refl
  sanitize-no_secrets e r (boolean b) = refl
  sanitize-no_secrets e r (int n) = refl
  sanitize-no_secrets e r (number t) = refl
  sanitize-no_secrets e r (bytes b) = refl
  sanitize-no_secrets e r (text s) = refl
  sanitize-no_secrets e r (arr vs) = sanitize_items-no_secret_items e r vs
  sanitize-no_secrets e r (obj d) = sanitize_fields-no_secret_fields e r d

  sanitize_fields-no_secret_fields :
      (e : Env) (r : Redaction) (d : Fields) → no_secret_fields e (sanitize_fields e r d) ≡ true
  sanitize_fields-no_secret_fields e r end = refl
  sanitize_fields-no_secret_fields e r (field key v d) =
      ground (arith, sanitize-no_secrets e r v, sanitize_fields-no_secret_fields e r d)

  sanitize_items-no_secret_items :
      (e : Env) (r : Redaction) (vs : Items) → no_secret_items e (sanitize_items e r vs) ≡ true
  sanitize_items-no_secret_items e r nil = refl
  sanitize_items-no_secret_items e r (cons v vs) =
      ground (arith, sanitize-no_secrets e r v, sanitize_items-no_secret_items e r vs)
