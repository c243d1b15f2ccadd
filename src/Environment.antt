-- ===== src/Environment.antt =====
-- What the program takes from outside its own code: the settings of `app/config.py`, the
-- cryptography and JWT packages, base64, JSON, URL and address parsing, and Unicode case mapping.
-- A theorem that needs a law of one of these has it as a hypothesis.
use ssf_transmitter.Prelude.{ℕ, String, Bool, List, Option}
use ssf_transmitter.Value.{Value}

-- Python's integers.
pub data ℤ : Type 0 where
  pos negsuc : ℕ → ℤ

-- `Settings`, with the port as Python's `int` gives it.
pub record Settings : Type 0 where
  pub ssf_issuer : String
  pub ssf_base_url : String
  pub ssf_allow_custom_issuer : Bool
  pub ssf_management_token : String
  pub ssf_webhook_auth_mode : String
  pub ssf_webhook_token : Option String
  pub ssf_webhook_secret : String
  pub ssf_allowed_receiver_hosts : List String
  pub ssf_token_encryption_key : Option String
  pub apple_scim_client_id : Option String
  pub apple_scim_client_secret : Option String
  pub authentik_url : Option String
  pub authentik_token : Option String
  pub apple_scim_group_id : Option String
  pub apple_scim_alert_webhook_url : Option String
  pub apple_scim_update_mode : String
  pub apple_scim_allow_username_recovery : Bool
  pub ssf_root_path : String
  pub ssf_container_port : ℤ
  pub log_level : String
  pub database_path : String
  pub keys_dir : String
  pub log_pii : Bool
  pub pii_pepper : String
  pub apple_scim_sync_interval : ℕ
  pub apple_scim_authorize_url : String
  pub apple_scim_token_url : String
  pub apple_scim_log_error_body : Bool
  pub ssf_log_color : Bool
  pub ssf_log_receiver_error_body : Bool
  pub ssf_enable_openapi : Bool

-- `urlparse`: the parts of a URL that the program looks at.
pub record ParsedUrl : Type 0 where
  pub scheme : String
  pub username : Option String
  pub password : Option String
  pub hostname : Option String
  pub fragment : String

-- `ipaddress.ip_address`, an address as a number of 32 or 128 bits.
pub data Address : Type 0 where
  v4 v6 : ℕ → Address

pub record Env : Type 0 where
  pub settings : Settings
  -- sha256 and base64 of the configured secret
  pub derive_key : String → String
  -- Fernet: the key, and the text or the token. `none` stands for InvalidToken.
  pub fernet_encrypt : String → String → String
  pub fernet_decrypt : String → String → Option String
  -- base64.urlsafe_b64decode, `none` where it raises
  pub urlsafe_b64decode : String → Option (List ℕ)
  -- HMAC-SHA256 in hexadecimal: the key and the bytes of the message
  pub hmac_sha256 : String → List ℕ → String
  -- json.dumps, and json.loads with `none` for JSONDecodeError
  pub dumps : Value → String
  pub loads : String → Option Value
  -- json.loads of bytes, `none` where it raises JSONDecodeError or UnicodeDecodeError
  pub loads_bytes : List ℕ → Option Value
  -- jwt.encode: the claims, the private key and the key id
  pub jwt_encode : Value → String → String → String
  -- the private key file, `none` where it cannot be read, and the parsed JWKS file
  pub private_pem : Option String
  pub jwks : Value
  -- the text that `uuid.uuid4` gives at each call, by where the call is made
  pub uuid : List ℕ → String
  -- `str.lower` and `str.upper`, and `str` of a value that is not a text
  pub lower : String → String
  pub upper : String → String
  pub show : Value → String
  -- `repr` of a text, and `int` of one, `none` where it raises ValueError
  pub repr : String → String
  pub int : String → Option ℤ
  -- bytes.decode("utf-8", errors="replace")
  pub decode : List ℕ → String
  -- urllib's quote with safe="", and the same of a text as a JSON literal that is not escaped to
  -- ASCII
  pub quote : String → String
  pub quote_json : String → String
  -- urlparse, `none` where it raises ValueError
  pub urlparse : String → Option ParsedUrl
  -- ipaddress.ip_address, `none` where it raises ValueError, and `str` of an address
  pub ip_address : String → Option Address
  pub show_address : Address → String
