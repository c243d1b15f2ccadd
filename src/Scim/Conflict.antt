-- ===== src/Scim/Conflict.antt =====
-- app/scim/apple.py: `_handle_409`, which resolves the conflict that a creation met.
use ssf_transmitter.Prelude.{
  ℕ, String, Bool, true, false, not, ◌||◌, Option, none, some, List, [], ◌∷◌, ◌==◌, string_eq,
  nat_eq, if◌then◌else◌,
}
use ssf_transmitter.Result.{Result, ok, err, unexpected}
use ssf_transmitter.Value.{Fields, text, int, obj, get, get_or}
use ssf_transmitter.Environment.{Env}
use ssf_transmitter.Scim.Http.{
  get_, ScimRequest, ScimReply, reply, Io, Apple, call, lift, pure, ◌>>=◌,
}
use ssf_transmitter.Scim.Identity.{
  Indexes, find, stripped, normalize_identifier, is_blank, is_safe_user_id, same_id,
}
use ssf_transmitter.Scim.Pages.{validate_users_page}
use ssf_transmitter.Scim.Lookup.{filter_url}
use ssf_transmitter.Scim.Preflight.{find_existing_users}
use ssf_transmitter.Scim.Update.{assign}
use ssf_transmitter.Scim.Run.{
  Step, sending, catching, caught, tally, count_error, record_username_conflict,
}
use ssf_transmitter.Scim.Reconcile.{reconcile_diffs}

-- The dictionary of a good reply; every failure of the query reads alike.
abbrev pub queried : ScimReply → Option Fields
queried (reply status (some (obj payload))) = if status == 200 then some payload else none
queried _ = none

abbrev pub username_request : Env → String → ScimRequest
username_request e username = record {
  method = get_;
  url = filter_url e "userName" username;
  body = none;
}

unfoldable pub query_username_filter : Env → Apple → String → Io (Option Fields)
unfolding call pure ◌>>=◌
query_username_filter e apple username = do
  answer ← call apple (username_request e username)
  pure (queried answer)

-- The listed user, if it is the one that the filter found.
abbrev pub agreeing : Env → String → Fields → Option (Indexes × Bool) → Option Fields
agreeing e username found none = none
agreeing e username found (some (ix, filtered)) =
    elim (find ix.by_username (normalize_identifier e (text username))) [
      | none ↦ none
      | some user ↦
          if not (same_id (get user "id") (get found "id"))
            || not (stripped e (get user "externalId") == stripped e (get found "externalId"))
          then none
          else some user
    ]

unfoldable pub verified_filtered_user : Env → Apple → String → Fields → Fields → Io (Option Fields)
unfolding find_existing_users catching find pure ◌>>=◌ stripped normalize_identifier
verified_filtered_user e apple username found user = do
  existing ← catching (find_existing_users e apple (user ∷ []))
  pure (agreeing e username found existing)

abbrev pub is_zero_based : Fields → Bool
is_zero_based payload = elim (get payload "startIndex") [ int n ↦ n == 0 | _ ↦ false ]

-- The identity that the filter found is not valid, or not the one asked for.
abbrev pub is_mismatched : Env → String → Fields → Bool
is_mismatched e username found =
    not (is_safe_user_id (get found "id"))
    || is_blank (get found "userName")
    || not (normalize_identifier e (get found "userName") == normalize_identifier e (text username))

abbrev pub first_resource : List Fields → Result Fields
first_resource [] = err unexpected
first_resource (user ∷ users) = ok user

-- `_handle_409` from the point where the user is found.
unfoldable pub recover_found : Env → Apple → Fields → String → Fields → Bool → Step (Unit {0})
unfolding reconcile_diffs verified_filtered_user sending tally ◌>>=◌
recover_found e apple user username found false = reconcile_diffs e apple found user true false
recover_found e apple user username found true = do
  verified ← sending (verified_filtered_user e apple username found user)
  elim verified [
    | none ↦ tally count_error
    | some listed_user ↦ reconcile_diffs e apple listed_user user true false
  ]

-- What the validated answer of the filter leads to.
unfoldable pub recover_listed :
    Env → Apple → Fields → String → Bool → Option (List Fields × ℕ) → Step (Unit {0})
unfolding recover_found is_safe_user_id record_username_conflict sending tally lift ◌>>=◌
    normalize_identifier
recover_listed e apple user username zero_based none = tally count_error
recover_listed e apple user username zero_based (some (resources, total)) =
    if not (total == 1) then tally (record_username_conflict user) else do
      found ← lift (first_resource resources)
      if is_mismatched e username found
          then tally count_error
          else recover_found e apple user username found zero_based

-- A userName that is no text, which no user of Authentik's has, raises.
abbrev pub username_of : Fields → Result String
username_of user = elim (get_or user "userName" (text "")) [ text s ↦ ok s | _ ↦ err unexpected ]

unfoldable pub one_based : Fields → Fields
unfolding assign
one_based payload = if is_zero_based payload then assign "startIndex" (int 1) payload else payload

unfoldable pub recover_payload : Env → Apple → Fields → String → Option Fields → Step (Unit {0})
unfolding recover_listed validate_users_page one_based tally lift ◌>>=◌
recover_payload e apple user username none = tally count_error
recover_payload e apple user username (some payload) = do
  valid ← lift (caught (validate_users_page (one_based payload) 1 none))
  recover_listed e apple user username (is_zero_based payload) valid

unfoldable pub handle_409 : Env → Apple → Fields → Step (Unit {0})
unfolding query_username_filter recover_payload sending lift ◌>>=◌
handle_409 e apple user = do
  username ← lift (username_of user)
  payload ← sending (query_username_filter e apple username)
  recover_payload e apple user username payload
