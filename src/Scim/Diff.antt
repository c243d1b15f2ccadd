-- ===== src/Scim/Diff.antt =====
-- app/scim/apple.py: which fields of a user differ between Apple and Authentik, and which of them
-- the mode of update writes.
use ssf_transmitter.Prelude.{
  String, Bool, true, false, not, ◌&&◌, ◌||◌, Option, none, some, List, [], ◌∷◌, ◌++◌, ◌==◌,
  string_eq, if◌then◌else◌, truthy, strip, elem,
}
use ssf_transmitter.Result.{Result, ok, unexpected, or_raise, ◌>>=◌}
use ssf_transmitter.Value.{
  Value, Items, Fields, null, boolean, text, arr, obj, nil, cons, end, get, get_or, is_true,
  as_dict,
}
use ssf_transmitter.Environment.{Env}
use ssf_transmitter.Scim.Identity.{str, stripped, normalize_identifier, normalize_email}

unfoldable pub can_recover_by_username : Env → Fields → Value → Bool
unfolding stripped
can_recover_by_username e apple_user authentik_external_id =
    let found_ext = stripped e (get apple_user "externalId") in
    let current_ext = stripped e authentik_external_id in
    if not (truthy current_ext)
    then false
    else if truthy found_ext
    then found_ext == current_ext
    else e.settings.apple_scim_allow_username_recovery

-- `email.get("primary") is True`
abbrev pub is_primary : Fields → Bool
is_primary email = elim (get email "primary") [ boolean b ↦ b | _ ↦ false ]

-- The first address, once there is one.
abbrev pub first_email : Env → Option String → Value → Option String
first_email e (some s) v = some s
first_email e none v = if is_true v then some (strip (str e v)) else none

unfoldable pub email_from : Env → Option String → Items → Option String
email_from e first nil = first
email_from e first (cons (obj email) rest) =
    let value = get email "value" in
    let later = email_from e (first_email e first value) rest in
    if is_primary email && is_true value then some (strip (str e value)) else later
email_from e first (cons _ rest) = email_from e first rest

unfoldable pub primary_email_of : Env → Value → Option String
unfolding email_from
primary_email_of e (obj email) = email_from e none (cons (obj email) nil)
primary_email_of e (arr emails) = email_from e none emails
primary_email_of e _ = none

abbrev pub primary_email : Env → Fields → Option String
primary_email e user = primary_email_of e (get_or user "emails" (arr nil))

-- The fields by name, each with whether it differs.
abbrev pub Diffs : Type 0
Diffs = List (String × Bool)

abbrev pub as_value : Option String → Value
as_value none = null
as_value (some s) = text s

-- `user.get("name", {})`, where a name that is no dictionary raises AttributeError.
abbrev pub name_of : Fields → Result Fields
name_of user = or_raise (as_dict (get_or user "name" (obj end))) unexpected

abbrev pub differs : String → String → Bool
differs s t = not (s == t)

-- `a != b` on Booleans.
abbrev pub xor : Bool → Bool → Bool
xor true b = not b
xor false b = b

abbrev pub is_active : Fields → Bool
is_active user = is_true (get_or user "active" (boolean true))

-- The differences of two users, whose names are given.
unfoldable pub diff_fields : Env → Fields → Fields → Fields → Fields → Bool → Diffs
unfolding normalize_identifier normalize_email stripped primary_email_of
diff_fields e existing name user name' include_external_id =
    (
      "userName",
      differs (normalize_identifier e (get existing "userName"))
          (normalize_identifier e (get user "userName")),
    )
    ∷ (
      "givenName",
      differs (stripped e (get name "givenName")) (stripped e (get name' "givenName")),
    )
    ∷ (
      "familyName",
      differs (stripped e (get name "familyName")) (stripped e (get name' "familyName")),
    )
    ∷ ("active", xor (is_active existing) (is_active user))
    ∷ (
      "email",
      differs (normalize_email e (as_value (primary_email e existing)))
          (normalize_email e (as_value (primary_email e user))),
    )
    ∷ (if include_external_id
        then (
          "externalId",
          differs (stripped e (get existing "externalId")) (stripped e (get user "externalId")),
        )
          ∷ []
        else [])

unfoldable pub field_diffs : Env → Fields → Fields → Bool → Result Diffs
unfolding diff_fields
field_diffs e existing user include_external_id = do
  name ← name_of existing
  name' ← name_of user
  ok (diff_fields e existing name user name' include_external_id)

unfoldable pub update_fields_for_mode : String → List String
update_fields_for_mode mode =
    if mode == "external_id_only"
    then "externalId" ∷ []
    else if mode == "emails_only"
    then "emails" ∷ []
    else if mode == "username_only"
    then "userName" ∷ []
    else "externalId" ∷ "userName" ∷ "name" ∷ "emails" ∷ "active" ∷ []

unfoldable pub mode_field_to_diff_keys : String → List String
mode_field_to_diff_keys name =
    if name == "name"
    then "givenName" ∷ "familyName" ∷ []
    else if name == "emails"
    then "email" ∷ []
    else name ∷ []

unfoldable pub allowed_keys : List String → List String
unfolding mode_field_to_diff_keys
allowed_keys [] = []
allowed_keys (name ∷ names) = mode_field_to_diff_keys name ++ allowed_keys names

unfoldable pub only_keys : List String → Diffs → Diffs
only_keys keys [] = []
only_keys keys (d ∷ ds) = let rest = only_keys keys ds in if elem d.0 keys then d ∷ rest else rest

unfoldable pub actionable_diffs : Diffs → String → Diffs
unfolding update_fields_for_mode allowed_keys only_keys
actionable_diffs diffs mode = only_keys (allowed_keys (update_fields_for_mode mode)) diffs

-- `any(diffs.values())`
unfoldable pub any_diff : Diffs → Bool
any_diff [] = false
any_diff (d ∷ ds) = d.1 || any_diff ds

-- `any(v for k, v in diffs.items() if k not in keys)`
unfoldable pub any_other : List String → Diffs → Bool
any_other keys [] = false
any_other keys (d ∷ ds) = (not (elem d.0 keys) && d.1) || any_other keys ds

unfoldable pub keys_of : Diffs → List String
keys_of [] = []
keys_of (d ∷ ds) = d.0 ∷ keys_of ds

-- `diffs.get(key, False)`
unfoldable pub is_changed : Diffs → String → Bool
is_changed [] key = false
is_changed (d ∷ ds) key = if d.0 == key then d.1 else is_changed ds key
