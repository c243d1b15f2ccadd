-- ===== src/Events/Mapper.antt =====
-- app/events/mapper.py: which security events an Authentik webhook stands for.
pub mod Laws
use ssf_transmitter.Prelude.{
  ℕ, String, Bool, Option, none, some, List, [], ◌∷◌, if◌then◌else◌, truthy, strip,
}
use ssf_transmitter.Value.{
  Value, Fields, Items, null, int, text, bytes, arr, obj, nil, end, field, get, is_text, is_null,
  contains,
}
use ssf_transmitter.Environment.{Env}

abbrev pub session_revoked : String
session_revoked = "https://schemas.openid.net/secevent/caep/event-type/session-revoked"

abbrev pub credential_change : String
credential_change = "https://schemas.openid.net/secevent/caep/event-type/credential-change"

pub record MappedEvent : Type 0 where
  pub uri : String
  pub payload : Fields
  pub txn : Option String

-- The "body" object, or the whole payload where "body" is no object.
unfoldable pub extract_body : Fields → Fields
extract_body payload = elim (get payload "body") [ obj body ↦ body | _ ↦ payload ]

unfoldable pub nested_dict : Fields → String → Fields
nested_dict container key = elim (get container key) [ obj d ↦ d | _ ↦ end ]

-- `str(value)`
abbrev pub to_text : Env → Value → String
to_text e (text s) = s
to_text e v = e.show v

-- The first of the keys whose value is not None.
first_value : Env → Fields → List String → Option String
first_value e body [] = none
first_value e body (key ∷ keys) =
    let rest = first_value e body keys in
    if is_null (get body key) then rest else some (to_text e (get body key))

unfoldable pub extract_source_txn : Env → Fields → Option String
unfolding first_value
extract_source_txn e payload =
    first_value e (extract_body payload) ("pk" ∷ "event_uuid" ∷ "request_id" ∷ [])

unfoldable pub extract_action : Fields → Value
extract_action payload = get (extract_body payload) "action"

-- A value that is no list counts as an empty one.
unfoldable pub changed_fields : Fields → Items
changed_fields context = elim (get context "changed_fields") [ arr fields ↦ fields | _ ↦ nil ]

abbrev pub reason : String → Value
reason message = obj (field "en" (text message) end)

unfoldable pub session_revoked_event : ℕ → Option String → MappedEvent
session_revoked_event now txn = record {
  uri = session_revoked;
  payload = field "event_timestamp" (int now) (
      field "initiating_entity" (text "policy")
        (field "reason_admin" (reason "Session revoked in Authentik") end));
  txn = txn;
}

unfoldable pub credential_change_event : ℕ → Option String → MappedEvent
credential_change_event now txn = record {
  uri = credential_change;
  payload = field "event_timestamp" (int now) (
      field "initiating_entity" (text "user") (
        field "credential_type" (text "password") (
          field "change_type" (text "update")
            (field "reason_admin" (reason "Password changed in Authentik") end))));
  txn = txn;
}

unfoldable pub map_authentik_event : Env → ℕ → Fields → List MappedEvent
map_authentik_event e now payload =
    let body = extract_body payload in
    let action = get body "action" in
    let context = nested_dict body "context" in
    let txn = extract_source_txn e payload in
    if is_text action "authentik.core.auth.login_failed"
    then []
    else if is_text action "authentik.core.auth.logout"
    then session_revoked_event now txn ∷ []
    else if is_text action "authentik.core.user.delete"
    then []
    else if is_text action "authentik.core.user.write"
    then if contains (changed_fields context) "password"
      then credential_change_event now txn ∷ []
      else []
    else []

-- The stripped address of the user, or none where that is empty.
abbrev non_empty : String → Option String
non_empty s = if truthy s then some s else none

unfoldable pub email_of : Env → Value → Option String
email_of e (text raw) = non_empty (strip raw)
email_of e (bytes raw) = non_empty (strip (e.decode raw))
email_of e _ = none

unfoldable pub extract_email : Env → Fields → Option String
extract_email e payload = email_of e (get (nested_dict (extract_body payload) "user") "email")
