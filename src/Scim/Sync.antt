-- ===== src/Scim/Sync.antt =====
-- app/scim/apple.py: `sync_users`, which creates or updates each user of Authentik's.
pub mod Laws
use Prim.Native.String.{◌++◌}
use ssf_transmitter.Prelude.{
  ℕ, String, Bool, true, false, not, ◌&&◌, ◌||◌, Option, none, some, List, [], ◌∷◌, ◌==◌, string_eq,
  nat_eq, if◌then◌else◌,
}
use ssf_transmitter.Result.{Result, Error, ok, err, unexpected, http_failure, raise_if}
use ssf_transmitter.Value.{Value, Fields, null, text, boolean, obj, get, has_key}
use ssf_transmitter.Environment.{Env}
use ssf_transmitter.Scim.Http.{
  Method, post, ScimRequest, Io, Sent, Apple, Reply, response, Act, lift, pure, ◌>>=◌, ◌>>◌,
}
use ssf_transmitter.Scim.Identity.{
  apple_scim_base, Index, Indexes, no_users, find, str, normalize_identifier, id_of,
  is_safe_user_id, same_identity, same_id,
}
use ssf_transmitter.Prelude.{strip}
use ssf_transmitter.Scim.Preflight.{get_existing_users_by_filter, find_existing_users}
use ssf_transmitter.Scim.Run.{
  Step, Run, SyncResult, no_result, request, sending, catching, tally, count_created, count_error,
  record_username_conflict,
}
use ssf_transmitter.Scim.Reconcile.{reconcile_diffs}
use ssf_transmitter.Scim.Conflict.{handle_409}

-- `str(user["externalId"]).strip()`
abbrev pub external_id_of : Env → Fields → String
external_id_of e user = strip (str e (get user "externalId"))

abbrev pub match_by_ids : Option Fields → Option Fields → Option Fields × Bool × Bool
match_by_ids (some by_ext) (some username_match) =
    if not (id_of username_match == id_of by_ext)
    then (none, false, true)
    else (some by_ext, false, false)
match_by_ids (some by_ext) none = (some by_ext, false, false)
match_by_ids none (some username_match) = (some username_match, true, false)
match_by_ids none none = (none, false, false)

-- The match, whether the userName found it, and whether the two keys name different users.
unfoldable pub match_apple_user : Env → Fields → Indexes → Option Fields × Bool × Bool
unfolding find normalize_identifier
match_apple_user e user ix =
    match_by_ids (find ix.by_external_id (external_id_of e user))
      (find ix.by_username (normalize_identifier e (get user "userName")))

-- `created.get("id")` of a reply that is a dictionary.
abbrev pub created_id : Reply → Value
created_id (response status (some (obj created))) = get created "id"
created_id (response status _) = null

-- The users that the lookups found for a created user are one, and the one that was created.
abbrev pub is_created : Env → Fields → Value → Option Indexes → Bool
is_created e user id none = false
is_created e user id (some ix) = elim (find ix.by_external_id (external_id_of e user)) [
  | none ↦ false
  | some external_match ↦
      same_identity e (some external_match)
        (find ix.by_username (normalize_identifier e (get user "userName")))
      && same_id (get external_match "id") id
]

unfoldable pub verify_created_id : Env → Apple → Fields → Value → Io Bool
unfolding get_existing_users_by_filter catching find same_identity pure ◌>>=◌ normalize_identifier
verify_created_id e apple user id = do
  existing ← catching (get_existing_users_by_filter e apple (user ∷ []) no_users)
  pure (is_created e user id existing)

unfoldable pub verify_created_user : Env → Apple → Fields → Reply → Io Bool
unfolding verify_created_id is_safe_user_id pure
verify_created_user e apple user answer =
    if not (is_safe_user_id (created_id answer))
    then pure false
    else verify_created_id e apple user (created_id answer)

-- A user that Apple accepts.
unfoldable pub count_accepted : Env → Apple → Fields → Bool → Reply → Step (Unit {0})
unfolding verify_created_user sending tally pure ◌>>=◌
count_accepted e apple user verify_identity answer = do
  verified ←
      (if verify_identity then sending (verify_created_user e apple user answer) else pure true)
  tally (if verified then count_created else count_error)

unfoldable pub count_create : Env → Apple → Fields → Bool → Reply → Step (Unit {0})
unfolding count_accepted handle_409 tally
count_create e apple user verify_identity (response status body) =
    if status == 200 || status == 201
    then count_accepted e apple user verify_identity (response status body)
    else if status == 409
    then handle_409 e apple user
    else tally count_error

abbrev pub create_request : Fields → ScimRequest
create_request user = record {
  method = post;
  url = apple_scim_base ++ "/Users";
  body = some (obj user);
}

unfoldable pub create_user : Env → Apple → Fields → Bool → Step (Unit {0})
unfolding count_create request sending ◌>>=◌
create_user e apple user verify_identity = do
  answer ← sending (request apple (create_request user))
  count_create e apple user verify_identity answer

-- `except httpx.HTTPError`, around one user.
abbrev pub keep_going : Result (Unit {0}) × Run → Result (Unit {0}) × Run
keep_going (err http_failure, run) = (ok tt, record run { result = count_error run.result })
keep_going (r, run) = (r, run)

abbrev pub sync_matched :
    Env → Apple → Fields → Bool → Option Fields × Bool × Bool → Step (Unit {0})
sync_matched e apple user filtered (found, recovered, true) run =
    tally (record_username_conflict user) run
sync_matched e apple user filtered (none, recovered, false) run =
    keep_going (create_user e apple user filtered run)
sync_matched e apple user filtered (some apple_user, recovered, false) run =
    keep_going (reconcile_diffs e apple apple_user user recovered true run)

unfoldable pub sync_user : Env → Apple → Fields → Bool → Step (Unit {0})
unfolding match_apple_user create_user reconcile_diffs tally record_username_conflict
sync_user e apple user filtered run =
    sync_matched e apple user filtered (match_apple_user e user run.indexes) run

unfoldable pub sync_each : Env → Apple → Bool → List Fields → Step (Unit {0})
unfolding sync_user pure ◌>>=◌
sync_each e apple filtered [] = pure tt
sync_each e apple filtered (user ∷ users) = do
  sync_user e apple user filtered
  sync_each e apple filtered users

-- `user["externalId"]`, which raises KeyError, is read of every user for the log, before the loop.
unfoldable pub all_have_external_id : List Fields → Bool
unfolding has_key
all_have_external_id [] = true
all_have_external_id (user ∷ users) = has_key user "externalId" && all_have_external_id users

-- The loop over the users, from the indexes of what exists.
unfoldable pub sync_existing : Env → Apple → List Fields → Indexes × Bool → Io SyncResult
unfolding sync_each
sync_existing e apple users (ix, filtered) sent =
    let done =
      sync_each e apple filtered users (record { sent = sent; result = no_result; indexes = ix }) in
    elim done.0 [ ok unit ↦ (ok done.1.result, done.1.sent) | err x ↦ (err x, done.1.sent) ]

unfoldable pub sync_users : Env → Apple → List Fields → Io SyncResult
unfolding find_existing_users all_have_external_id sync_existing lift ◌>>=◌
sync_users e apple users = do
  existing ← find_existing_users e apple users
  lift (raise_if (not (all_have_external_id users)) unexpected)
  sync_existing e apple users existing
