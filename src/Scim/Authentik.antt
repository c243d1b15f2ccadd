-- ===== src/Scim/Authentik.antt =====
-- app/scim/authentik.py: the users of Authentik, mapped to SCIM users.
pub mod Laws
use ssf_transmitter.Prelude.{
  String, Bool, true, false, not, Option, none, some, List, [], ◌∷◌, if◌then◌else◌, truthy, strip,
  partition,
}
use ssf_transmitter.Result.{Result, ok, err, unexpected, or_raise, ◌>>=◌}
use ssf_transmitter.Value.{
  Value, Items, Fields, null, boolean, text, arr, obj, nil, cons, field, end, get, get_or, has_key,
  is_true, as_dict,
}
use ssf_transmitter.Environment.{Env}
use ssf_transmitter.Scim.Identity.{str}

-- `value or ""`, where any value but a text has no method of texts.
abbrev pub text_or : Value → Result String
text_or (text s) = ok s
text_or v = if is_true v then err unexpected else ok ""

-- A text has `strip`; None has not.
abbrev pub text_of : Value → Result String
text_of (text s) = ok s
text_of _ = err unexpected

-- `(user.get("email") or user.get("username", "")).strip()`
abbrev pub user_name : Fields → Result String
user_name user =
    text_of
      (if is_true (get user "email") then get user "email" else get_or user "username" (text ""))

abbrev pub scim_name : String → Value
scim_name full_name = obj (
    field "givenName" (text (partition full_name).0)
      (field "familyName" (text (partition full_name).1) (field "formatted" (text full_name) end)))

abbrev pub scim_emails : String → Value
scim_emails email = arr (
    cons
      (obj (
        field "value" (text email)
          (field "primary" (boolean true) (field "type" (text "work") end))))
      nil)

-- The SCIM user of a pk, a full name, a userName and an email address.
unfoldable pub scim_user : Env → Value → String → String → String → Value → Fields
unfolding partition strip
scim_user e pk full_name name email active =
    field "schemas" (arr (cons (text "urn:ietf:params:scim:schemas:core:2.0:User") nil)) (
      field "externalId" (text (str e pk)) (
        field "userName" (text (strip name)) (
          field "name" (scim_name full_name)
            (field "emails" (scim_emails (strip email)) (field "active" active end)))))

unfoldable pub map_to_scim : Env → Fields → Result Fields
unfolding scim_user
map_to_scim e user = do
  full_name ← text_or (get user "name")
  pk ← or_raise (if has_key user "pk" then some (get user "pk") else none) unexpected
  name ← user_name user
  email ← text_or (get user "email")
  ok (scim_user e pk full_name name email (get_or user "is_active" (boolean true)))

unfoldable pub map_with_email : Env → Fields → String → Result (Option Fields)
unfolding map_to_scim
map_with_email e user email =
    if truthy email then (map_to_scim e user >>= λ mapped. ok (some mapped)) else ok none

unfoldable pub map_with_pk : Env → Fields → Result (Option Fields)
unfolding map_with_email strip
map_with_pk e user = do email ← text_or (get user "email"); map_with_email e user (strip email)

-- A user without a pk or an email is dropped.
unfoldable pub map_user : Env → Fields → Result (Option Fields)
unfolding map_with_pk
map_user e user = if is_true (get user "pk") then map_with_pk e user else ok none

abbrev pub add_mapped : Option Fields → List Fields → List Fields
add_mapped none users = users
add_mapped (some mapped) users = mapped ∷ users

unfoldable pub filter_and_map_users : Env → Items → Result (List Fields)
unfolding map_user
filter_and_map_users e nil = ok []
filter_and_map_users e (cons u all_users) = do
  user ← or_raise (as_dict u) unexpected
  mapped ← map_user e user
  rest ← filter_and_map_users e all_users
  ok (add_mapped mapped rest)
