-- ===== src/Tests/Start.antt =====
-- Theorems on the start, on Apple's authorization and on the users of Authentik, at concrete inputs.
use ssf_transmitter.Prelude.{
  ℕ, String, any, not, ◌≡◌, refl, true, false, Option, none, some, List, [], ◌∷◌, string_eq,
  text_length, strip, lstrip, rstrip, is_space, partition,
}
use ssf_transmitter.Result.{ok}
use ssf_transmitter.Value.{
  Value, Items, Fields, boolean, int, text, obj, cons, nil, field, end, get, get_or, has_key,
  is_true,
}
use ssf_transmitter.Environment.{Env}
use ssf_transmitter.Database.{init_db}
use ssf_transmitter.Scim.Token.{response, save_tokens, expiry}
use ssf_transmitter.Scim.Authentik.{
  filter_and_map_users, map_user, map_with_pk, map_with_email, map_to_scim, scim_user,
}
use ssf_transmitter.Routes.Webhook.{Request, absent}
use ssf_transmitter.Routes.AppleScim.{
  put_state, add_state, Callback, callback, claim, is_valid_state, consume_state,
  cleanup_expired_states, is_pending_state, exchange_reply, exchange_body, apple_scim_enabled,
}
use ssf_transmitter.Routes.AppleScim.History.{
  Call, authorizes, calls_back, History, after_calls, empty_history, is_open, callback-single_use,
}
use ssf_transmitter.Routes.AppleScim.Sync.{authorize}
use ssf_transmitter.Config.Load.{public_url}
use ssf_transmitter.Scim.Coordination.{
  System, start, enter, release, Reaches, here, then, enters, starts_waiting, leaves,
}
use ssf_transmitter.Scim.Coordination.Progress.{Drains, Reaches-Drains}
use ssf_transmitter.Scim.Coordination.Laws.{IsExclusive, Reaches-IsExclusive}
use ssf_transmitter.Startup.{
  Disk, run_preflight_checks, check_management_token, check_webhook_auth, check_database,
  check_receiver_allowlist, check_stored_streams_allowlist,
}
use ssf_transmitter.Startup.Report.{Probe, report}
use ssf_transmitter.Startup.Report.Laws.{is_fatal, report_iff}
use ssf_transmitter.Scim.Http.{no_reply}
use ssf_transmitter.Tests.Setting.{settings, env}

abbrev long_token : String
long_token = "0123456789abcdef0123456789abcdef"

abbrev configured : Env
configured = record env {
  settings = record settings {
    ssf_management_token = long_token;
    ssf_webhook_token = some long_token;
  };
}

abbrev disk : Disk
disk = record {
  dir_exists = true;
  dir_is_writable = true;
  file_exists = false;
  file_is_writable = false;
}

passes : run_preflight_checks configured disk none ≡ true
unfolding run_preflight_checks check_management_token check_webhook_auth check_database
    check_receiver_allowlist check_stored_streams_allowlist text_length
passes = refl

-- A first start: no variables, no keys, no rows, and Authentik does not answer.
abbrev probe : Probe
probe = record {
  vars = λ name. none;
  files = record { private_key = none; jwks = none };
  disk = disk;
  rows = none;
  tokens = none;
  now = 100;
  authentik = no_reply;
}

report_iff_example :
    any is_fatal (report configured probe) ≡ not (run_preflight_checks configured disk none)
report_iff_example = report_iff configured probe

abbrev webhook : Request
webhook = record {
  content_length = absent;
  authorization = some "Bearer x";
  x_authentik_signature = none;
  chunks = [];
}

abbrev ann : Fields
ann = field "pk" (int 1) (field "email" (text " ann@x ") (field "name" (text "Ann Lee") end))

-- The second user has no email and is dropped.
abbrev all_users : Items
all_users = cons (obj ann) (cons (obj (field "pk" (int 2) end)) nil)

abbrev mapped : List Fields
mapped =
    scim_user env (int 1) "Ann Lee" " ann@x " " ann@x " (get_or ann "is_active" (boolean true)) ∷ []

is_mapped : filter_and_map_users env all_users ≡ ok mapped
unfolding filter_and_map_users map_user map_with_pk map_with_email map_to_scim scim_user partition
    strip lstrip rstrip is_space get get_or has_key is_true
is_mapped = refl

abbrev read_int : Value → Option ℕ
read_int (int n) = some n
read_int _ = none

abbrev authorized : Callback
authorized = record {
  code = some "code";
  state = some "state";
  error = none;
  is_busy = false;
  monotonic = 5_000;
  now = 100;
  answer = λ code. response 200 (some (obj (field "access_token" (text "access") end)));
}

-- The state is given out, and a callback with it is refused while another operation runs.
abbrev before : List Call
before = authorizes 1_000 "state" ∷ calls_back (record authorized { is_busy = true }) ∷ []

abbrev history : History
history = after_calls env read_int (λ params. "") before (empty_history init_db)

is_authorized :
    (callback env read_int authorized history.states history.db).result ≡ ok (3600, false)
unfolding callback claim is_valid_state consume_state cleanup_expired_states is_pending_state
    exchange_reply exchange_body apple_scim_enabled save_tokens expiry get is_true authorize
    add_state put_state public_url
is_authorized = refl

callback-single_use_example : (false ≡ false) × (is_open 5_000 "state" history.log ≡ true)
callback-single_use_example =
    callback-single_use env read_int (λ params. "") before init_db authorized (3600, false)
      is_authorized

-- One task is inside, another is released but not resumed, and a third waits: the first to leave was
-- followed by one that came between.
abbrev contended : System
contended = record {
  coordinator = record { busy = true; idle = false };
  inside = 1;
  waiting = 1;
  released = 1;
}

is_contended : Reaches start contended
unfolding enter release
is_contended =
    then
      (then (then (then (then here (enters false refl)) (starts_waiting refl refl)) (leaves 0 refl))
        (enters false refl))
      (starts_waiting refl refl)

Reaches-IsExclusive_example : IsExclusive contended
Reaches-IsExclusive_example = Reaches-IsExclusive is_contended

Reaches-Drains_example : Drains 5 contended
Reaches-Drains_example = Reaches-Drains is_contended
