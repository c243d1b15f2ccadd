-- ===== src/Tests/Setting.antt =====
-- A concrete environment, stream, queue and network. The cipher is the identity, a key that opens
-- what it has closed.
use ssf_transmitter.Prelude.{
  ℕ, String, false, none, some, [], ◌∷◌, if◌then◌else◌, ◌==◌, string_eq, ◌≡◌, refl,
}
use ssf_transmitter.Value.{Fields, null, obj}
use ssf_transmitter.Environment.{Env, Settings, ParsedUrl, v4, pos}
use ssf_transmitter.Crypto.Laws.{FernetRoundTrip}
use ssf_transmitter.Database.{Stream, OutboxItem, Db, init_db}
use ssf_transmitter.Database.Streams.{save_stream, get_stream_by_id}
use ssf_transmitter.Database.Update.{save_stream_lem}
use ssf_transmitter.Database.Outbox.{outbox_row, to_item}
use ssf_transmitter.Database.Ops.{requeue}
use ssf_transmitter.Events.Mapper.{session_revoked}
use ssf_transmitter.Events.Pusher.{Net, response, request_of}
use ssf_transmitter.Events.Pusher.Laws.{IsCurrent, IsAccepted}
use ssf_transmitter.Events.Outbox.{World, Turn, in_time, queued_payload}
use ssf_transmitter.Security.Address.{ip4, is_blocked_ip, is_blocked_address, unwrap}
use ssf_transmitter.Security.Url.{Dns, found, safe_hostname}
use ssf_transmitter.Security.Url.Laws.{IsSafeUrl, IsPublic}
use ssf_transmitter.Prelude.{inr}

abbrev pub settings : Settings
settings = record {
  ssf_issuer = "https://ssf.example";
  ssf_base_url = "https://ssf.example";
  ssf_management_token = "manage";
  ssf_webhook_auth_mode = "bearer";
  ssf_webhook_token = some "hook";
  ssf_webhook_secret = "";
  ssf_allowed_receiver_hosts = "rx.example" ∷ [];
  ssf_token_encryption_key = none;
  ssf_allow_custom_issuer = false;
  apple_scim_client_id = some "client";
  apple_scim_client_secret = some "secret";
  authentik_url = some "https://idp.example";
  authentik_token = some "token";
  apple_scim_group_id = none;
  apple_scim_alert_webhook_url = none;
  apple_scim_update_mode = "patch_all";
  apple_scim_allow_username_recovery = false;
  ssf_root_path = "";
  ssf_container_port = pos 8000;
  log_level = "INFO";
  database_path = "/app/data/ssf.db";
  keys_dir = "/app/keys";
  log_pii = false;
  pii_pepper = "";
  apple_scim_sync_interval = 3600;
  apple_scim_authorize_url = "https://appleid.apple.com/auth/oauth2/v2/authorize";
  apple_scim_token_url = "https://appleid.apple.com/auth/oauth2/v2/token";
  apple_scim_log_error_body = false;
  ssf_log_color = false;
  ssf_log_receiver_error_body = false;
  ssf_enable_openapi = false;
}

abbrev pub receiver : Stream
receiver = record {
  stream_id = "s1";
  aud = "audience";
  endpoint_url = "https://rx.example/set";
  endpoint_token = "secret";
  events_requested = session_revoked ∷ [];
  status = "enabled";
  created_at = 1;
}

abbrev pub payload : Fields
payload = queued_payload receiver session_revoked "jwt"

abbrev pub parsed : ParsedUrl
parsed = record {
  scheme = "https";
  username = none;
  password = none;
  hostname = some "rx.example";
  fragment = "";
}

abbrev pub env : Env
env = record {
  settings = settings;
  derive_key = λ s. s;
  fernet_encrypt = λ k p. p;
  fernet_decrypt = λ k t. some t;
  urlsafe_b64decode = λ s. none;
  hmac_sha256 = λ k bytes. "";
  dumps = λ v. "{}";
  loads = λ s. some (obj payload);
  loads_bytes = λ bytes. some (obj payload);
  jwt_encode = λ v pem kid. "jwt";
  private_pem = some "pem";
  jwks = null;
  uuid = λ path. "uuid";
  lower = λ s. s;
  upper = λ s. s;
  show = λ v. "";
  repr = λ s. s;
  int = λ s. some (pos 3600);
  decode = λ bytes. "";
  quote = λ s. s;
  quote_json = λ s. s;
  urlparse = λ url. some parsed;
  ip_address = λ s. if s == "rx.example" then none else some (v4 (ip4 93 184 216 34));
  show_address = λ a. "93.184.216.34";
}

pub fernet_law : FernetRoundTrip env
fernet_law p = refl

abbrev pub dns : String → Dns
dns name = found ("93.184.216.34" ∷ [])

abbrev pub net : Net
net = record { resolve = dns; post = λ request. response 202 }

abbrev pub stored : Db
stored = save_stream env receiver init_db

abbrev pub queued : Db
queued = record stored { outbox = outbox_row env 5 1 (receiver, payload) ∷ []; next_id = 2 }

abbrev pub item : OutboxItem
item = to_item (outbox_row env 5 1 (receiver, payload))

abbrev pub world : World
world = record { now = 10; net = net; deadline = in_time; during = requeue 7 ∷ [] }

abbrev pub turn : ℕ → Turn
turn k = record { before = []; stop = false; world = world }

pub stored-receiver : get_stream_by_id env receiver.stream_id stored ≡ some receiver
stored-receiver = (save_stream_lem env fernet_law receiver init_db).1

pub receiver-IsPublic : IsPublic env dns "rx.example"
unfolding is_blocked_ip is_blocked_address unwrap
receiver-IsPublic = record {
  ips = "93.184.216.34" ∷ [];
  resolves = refl;
  some_ip = refl;
  none_blocked = refl;
}

pub receiver-IsCurrent : IsCurrent env net receiver.endpoint_url
unfolding safe_hostname
receiver-IsCurrent = record { listed = inr refl; named = refl; public = receiver-IsPublic }

pub receiver-IsAccepted : IsAccepted env net (request_of receiver "jwt")
receiver-IsAccepted = (202, refl, refl)

pub receiver-IsSafeUrl : IsSafeUrl env dns receiver.endpoint_url ("rx.example" ∷ [])
unfolding safe_hostname
receiver-IsSafeUrl = record {
  parsed = parsed;
  parses = refl;
  given = refl;
  https = refl;
  no_username = refl;
  no_password = refl;
  no_fragment = refl;
  host = record {
    named = refl;
    not_internal = refl;
    literal = refl;
    listed = inr refl;
    public = receiver-IsPublic;
  };
}
