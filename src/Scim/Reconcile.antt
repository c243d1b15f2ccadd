-- ===== src/Scim/Reconcile.antt =====
-- app/scim/apple.py: `_reconcile_diffs` with the requests that update a user.
pub mod Laws
pub mod Target
use ssf_transmitter.Prelude.{
  ℕ, String, Bool, true, false, not, ◌&&◌, ◌||◌, Option, none, some, List, [], ◌∷◌, ◌==◌, string_eq,
  nat_eq, if◌then◌else◌, truthy,
}
use ssf_transmitter.Result.{Result, ok, err}
use ssf_transmitter.Value.{Value, Fields, text, obj, get}
use ssf_transmitter.Environment.{Env}
use ssf_transmitter.Scim.Http.{
  Method, get_, patch, ScimRequest, ScimReply, reply, no_reply, Apple, Reply, response, call, lift,
  pure, ◌>>=◌, ◌>>◌,
}
use ssf_transmitter.Scim.Identity.{stripped, normalize_identifier, user_url, id_of, same_id}
use ssf_transmitter.Scim.Lookup.{has_name_dict}
use ssf_transmitter.Scim.Diff.{
  Diffs, can_recover_by_username, field_diffs, actionable_diffs, any_diff, any_other, keys_of,
  is_changed,
}
use ssf_transmitter.Scim.Update.{UpdateRequest, build_update_request, patch_body}
use ssf_transmitter.Scim.Run.{
  Step, request, sending, tally, count_updated, count_unchanged, count_error, count_400,
  count_out_of_scope, record_username_conflict, replace_user, SyncResult,
}

-- `response.status_code in (200, 204)`
abbrev pub is_updated : Reply → Bool
is_updated (response status body) = status == 200 || status == 204

abbrev pub classify_update_400 : Reply → Bool
classify_update_400 (response status body) = status == 400

-- The error of a refused update, which also counts as an invalid request if it is a 400.
abbrev pub count_refused : Reply → SyncResult → SyncResult
count_refused r result =
    if classify_update_400 r then count_400 (count_error result) else count_error result

unfoldable pub patch_user : Env → Apple → Fields → Fields → Diffs → Step (Unit {0})
unfolding build_update_request request sending tally lift ◌>>=◌
patch_user e apple apple_user new_user diffs = do
  update ←
      lift
        (build_update_request e new_user e.settings.apple_scim_update_mode (id_of apple_user) diffs)
  answer ← sending (
      request apple (record {
        method = update.method;
        url = user_url e (id_of apple_user);
        body = some update.body;
      }))
  tally (if is_updated answer then count_updated else count_refused answer)

-- The user of the reply that confirms a repaired externalId.
abbrev pub is_repaired : Env → Fields → Fields → Fields → Bool
is_repaired e apple_user new_user verified =
    same_id (get apple_user "id") (get verified "id")
    && stripped e (get verified "externalId") == stripped e (get new_user "externalId")
    && normalize_identifier e (get verified "userName")
      == normalize_identifier e (get new_user "userName")
    && has_name_dict verified

unfoldable pub verified_repair : Env → Fields → Fields → ScimReply → Option Fields
unfolding stripped normalize_identifier
verified_repair e apple_user new_user no_reply = none
verified_repair e apple_user new_user (reply status none) = none
verified_repair e apple_user new_user (reply status (some (obj verified))) =
    if status == 200 && is_repaired e apple_user new_user verified then some verified else none
verified_repair e apple_user new_user (reply status (some _)) = none

abbrev pub external_id_patch : Env → Fields → Fields → ScimRequest
external_id_patch e apple_user new_user = record {
  method = patch;
  url = user_url e (id_of apple_user);
  body = some (patch_body (("externalId", text (stripped e (get new_user "externalId"))) ∷ []));
}

abbrev pub count_repair : Option Fields → SyncResult → SyncResult
count_repair none = count_error
count_repair (some verified) = count_updated

-- The read that verifies the repair. Its failure is caught.
unfoldable pub verify_repair : Env → Apple → Fields → Fields → Step (Option Fields)
unfolding verified_repair call sending tally pure ◌>>=◌ user_url
verify_repair e apple apple_user new_user = do
  answer ←
      sending
        (call apple (record { method = get_; url = user_url e (id_of apple_user); body = none }))
  let repaired = verified_repair e apple_user new_user answer
  tally (count_repair repaired)
  pure repaired

-- The user after the repair, which is none where the code returns False.
unfoldable pub patch_external_id : Env → Apple → Fields → Fields → Step (Option Fields)
unfolding verify_repair request sending tally lift pure ◌>>=◌ stripped user_url
patch_external_id e apple apple_user new_user = do
  answer ← sending (request apple (external_id_patch e apple_user new_user))
  if is_updated answer
      then verify_repair e apple apple_user new_user
      else tally (count_refused answer) >> pure none

-- The message of the conflict is logged only.
unfoldable pub username_recovery_allowed : Env → Fields → Fields → Step Bool
unfolding can_recover_by_username record_username_conflict tally pure ◌>>=◌
username_recovery_allowed e apple_user user =
    if can_recover_by_username e apple_user (get user "externalId")
    then pure true
    else tally (record_username_conflict user) >> pure false

-- What is left to do for the fields of the user: `attempted` tells that the externalId was repaired.
unfoldable pub update_fields : Env → Apple → Fields → Fields → Diffs → Bool → Step (Unit {0})
unfolding patch_user actionable_diffs any_diff any_other keys_of tally pure ◌>>=◌
update_fields e apple apple_user user diffs attempted = do
  let actionable = actionable_diffs diffs e.settings.apple_scim_update_mode
  tally (if any_other (keys_of actionable) diffs then count_out_of_scope else λ r. r)
  if any_diff actionable
      then patch_user e apple apple_user user actionable
      else if attempted
      then pure tt
      else tally count_unchanged

-- The repair of the externalId, behind which the other fields are compared anew. The user of
-- `sync_users` is the object that the indexes hold; the one of `_handle_409` is not.
unfoldable pub repair_and_update : Env → Apple → Fields → Fields → Bool → Step (Unit {0})
unfolding patch_external_id replace_user field_diffs update_fields lift pure ◌>>=◌
repair_and_update e apple apple_user user is_indexed = do
  repaired ← patch_external_id e apple apple_user user
  elim repaired [
    | none ↦ pure tt
    | some verified ↦ do
      if is_indexed then replace_user (id_of apple_user) verified else pure tt
      diffs ← lift (field_diffs e verified user false)
      update_fields e apple verified user diffs true
  ]

unfoldable pub reconcile_eligible : Env → Apple → Fields → Fields → Bool → Bool → Step (Unit {0})
unfolding field_diffs repair_and_update update_fields is_changed lift ◌>>=◌
reconcile_eligible e apple apple_user user recovered_by_username is_indexed = do
  diffs ← lift (field_diffs e apple_user user true)
  if recovered_by_username && is_changed diffs "externalId"
      then repair_and_update e apple apple_user user is_indexed
      else update_fields e apple apple_user user diffs false

unfoldable pub reconcile_diffs : Env → Apple → Fields → Fields → Bool → Bool → Step (Unit {0})
unfolding username_recovery_allowed reconcile_eligible pure ◌>>=◌
reconcile_diffs e apple apple_user user recovered_by_username is_indexed = do
  allowed ←
      (if recovered_by_username then username_recovery_allowed e apple_user user else pure true)
  if allowed
      then reconcile_eligible e apple apple_user user recovered_by_username is_indexed
      else pure tt
