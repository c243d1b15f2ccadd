-- ===== src/Security/Log.antt =====
-- app/security/log_sanitize.py, app/security/pii.py and app/security/http_logging.py: what may be
-- written to the log. The substitution of email addresses by their expression, and the encoding of
-- texts as UTF-8, are arguments.
pub mod Laws
use Prim.Native.Char.{Char, code}
use Prim.Native.Nat.{zero, suc}
use Prim.Native.String.{String, [], ◌∷◌, ◌++◌}
use ssf_transmitter.Prelude.{
  ℕ, Bool, true, false, List, Option, none, some, ◌||◌, ltb, ◌==◌, nat_eq, string_eq, if◌then◌else◌,
  text_length,
}
use ssf_transmitter.Value.{Value, Fields, Items, null, text, obj, arr, field, end, cons, nil}
use ssf_transmitter.Environment.{Env}

-- `s[:n]`
unfoldable pub take_text : ℕ → String → String
take_text zero s = []
take_text (suc n) [] = []
take_text (suc n) (c ∷ s) = c ∷ take_text n s

-- `[\x00-\x1f\x7f]`
abbrev pub is_control : ℕ → Bool
is_control c = ltb c 32 || c == 127

unfoldable pub remove_control : String → String
remove_control [] = []
remove_control (c ∷ s) =
    let rest = remove_control s in if is_control (code c) then rest else c ∷ rest

abbrev pub suffix : String
suffix = "...[truncated]"

abbrev pub cap : ℕ → String → String
cap max_len stripped =
    if ltb max_len (text_length stripped) then take_text max_len stripped ++ suffix else stripped

unfoldable pub sanitize_for_log : Env → Value → ℕ → String
unfolding remove_control take_text text_length
sanitize_for_log e null max_len = "None"
sanitize_for_log e (text s) max_len = cap max_len (remove_control s)
sanitize_for_log e v max_len = cap max_len (remove_control (e.show v))

-- How free text is read: the bytes of a text, the substitution of every email address in it by what a
-- function makes of it, and whether addresses are logged, with the key of their tokens.
pub record Redaction : Type 0 where
  pub encode : String → List ℕ
  pub sub_emails : (String → String) → String → String
  pub log_pii : Bool
  pub pii_key : String

unfoldable pub mask_email : Env → Redaction → Option String → String
unfolding take_text
mask_email e r none = "[pii:none]"
mask_email e r (some email) =
    if r.log_pii
    then email
    else "[pii:" ++ (take_text 8 (e.hmac_sha256 r.pii_key (r.encode email)) ++ "]")

unfoldable pub redact_text : Env → Redaction → String → String
unfolding mask_email
redact_text e r s = r.sub_emails (λ email. mask_email e r (some email)) s

unfoldable pub is_sensitive_key : String → Bool
is_sensitive_key key =
    key == "access_token"
    || key == "refresh_token"
    || key == "token"
    || key == "client_secret"
    || key == "authorization"
    || key == "secret"
    || key == "id_token"

unfoldable mutual
  pub sanitize : Env → Redaction → Value → Value
  sanitize e r (obj d) = obj (sanitize_fields e r d)
  sanitize e r (arr vs) = arr (sanitize_items e r vs)
  sanitize e r (text s) = text (redact_text e r s)
  sanitize e r v = v

  pub sanitize_fields : Env → Redaction → Fields → Fields
  sanitize_fields e r end = end
  sanitize_fields e r (field key nested d) =
      let nested' = sanitize e r nested in
      let rest = sanitize_fields e r d in
      field key (if is_sensitive_key (e.lower key) then text "[redacted]" else nested') rest

  pub sanitize_items : Env → Redaction → Items → Items
  sanitize_items e r nil = nil
  sanitize_items e r (cons v vs) = cons (sanitize e r v) (sanitize_items e r vs)

-- The body's text, as httpx decodes it. `e.dumps` stands for the dump with sorted keys.
unfoldable pub safe_response_body_text : Env → Redaction → ℕ → String → String
unfolding take_text redact_text sanitize
safe_response_body_text e r limit body =
    let raw_text = take_text limit body in
    elim (e.loads raw_text) [
      | none ↦ redact_text e r raw_text
      | some parsed ↦ take_text limit (e.dumps (sanitize e r parsed))
    ]
