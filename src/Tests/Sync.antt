-- ===== src/Tests/Sync.antt =====
-- Theorems on the synchronisation with Apple SCIM, at a listing of two pages with one user each.
use ssf_transmitter.Prelude.{
  not, ◌&&◌, ◌⊎◌, ◌*◌, ◌≤◌, ◌≡◌, ◌≢◌, refl, true, false, none, some, String, List, [], ◌∷◌, length,
  if◌then◌else◌, ◌==◌, nat_eq, strip, lstrip, rstrip, is_space, any_char,
}
use ssf_transmitter.Result.{ok}
use ssf_transmitter.Value.{
  Fields, int, text, arr, cons, nil, obj, field, end, get, get_or, is_true, as_int, has_key,
}
use ssf_transmitter.Scim.Http.{Apple, reply, call, lift, pure, ◌>>=◌}
use ssf_transmitter.Scim.Identity.{
  user_url, Indexes, index_user, index_unique_user, index_users, find, put, stripped,
  normalize_identifier, normalize_email, is_safe_user_id,
}
use ssf_transmitter.Scim.Pages.{
  read_page, dicts_of, validate_users_page, next_users_page_url, apple_single_page, read_on,
}
use ssf_transmitter.Scim.Listing.{
  fetch_users_page, first_url, get_existing_users, read_pages, listed,
}
use ssf_transmitter.Scim.Listing.Laws.{get_existing_users_terminates, get_existing_users_complete}
use ssf_transmitter.Scim.Preflight.{find_existing_users}
use ssf_transmitter.Scim.Preflight.Reads.{all_get, find_existing_users-all_get}
use ssf_transmitter.Scim.Diff.{
  Diffs, can_recover_by_username, diff_fields, field_diffs, primary_email_of, email_from,
  update_fields_for_mode, mode_field_to_diff_keys, allowed_keys, only_keys, actionable_diffs,
  any_diff, any_other, keys_of, is_changed,
}
use ssf_transmitter.Scim.Update.{UpdateRequest, build_update_request}
use ssf_transmitter.Scim.Update.Laws.{build_update_request-returns}
use ssf_transmitter.Scim.Run.{Run, SyncResult, no_result, tally, record_username_conflict}
use ssf_transmitter.Scim.Reconcile.{
  reconcile_diffs, reconcile_eligible, update_fields, username_recovery_allowed,
}
use ssf_transmitter.Scim.Reconcile.Laws.{score}
use ssf_transmitter.Scim.Reconcile.Target.{all_to, reconcile_diffs-all_to}
use ssf_transmitter.Scim.Sync.{
  match_apple_user, sync_user, sync_each, all_have_external_id, sync_existing, sync_users,
}
use ssf_transmitter.Scim.Sync.Laws.{sync_users-score}
use ssf_transmitter.Tests.Setting.{env}

abbrev user : String → String → String → Fields
user user_id name external_id =
    field "id" (text user_id)
      (field "userName" (text name) (field "externalId" (text external_id) end))

abbrev ann : Fields
ann = user "u1" "ann" "1"

abbrev bob : Fields
bob = user "u2" "bob" "2"

abbrev page : Fields → Fields
page u = field "totalResults" (int 2) (field "Resources" (arr (cons (obj u) nil)) end)

-- The second page starts behind the first.
abbrev second_page : Fields
second_page = field "startIndex" (int 2) (page bob)

-- The first request gets the first page, all others the second.
abbrev two_pages : Apple
two_pages sent =
    if length sent == 1
    then reply 200 (some (obj (page ann)))
    else reply 200 (some (obj second_page))

abbrev indexes : Indexes
indexes = record {
  by_external_id = ("1", ann) ∷ ("2", bob) ∷ [];
  by_username = ("ann", ann) ∷ ("bob", bob) ∷ [];
}

is_read : (fetch_users_page two_pages first_url []).0 ≡ ok (page ann)
unfolding fetch_users_page read_page call lift ◌>>=◌
is_read = refl

is_listed : (get_existing_users env two_pages []).0 ≡ ok (some (listed indexes))
unfolding get_existing_users fetch_users_page read_page call lift pure ◌>>=◌ apple_single_page
    read_on validate_users_page next_users_page_url index_users index_unique_user index_user
    read_pages is_safe_user_id find put stripped normalize_identifier strip lstrip rstrip is_space
    any_char dicts_of get get_or is_true
is_listed = refl

get_existing_users_terminates_example : (get_existing_users env two_pages []).0 ≢ ok none
get_existing_users_terminates_example = get_existing_users_terminates env two_pages []

get_existing_users_complete_example :
    as_int (get (page ann) "totalResults") ≡ some (length indexes.by_username)
get_existing_users_complete_example =
    get_existing_users_complete env two_pages [] (page ann) indexes is_read is_listed

no_writes : all_get [] ≡ true
unfolding all_get
no_writes = refl

-- Two users of the source: one is as Apple has it, the other's account does not say whose it is.
abbrev source : List Fields
source = user "" "ann" "1" ∷ user "" "bob" "3" ∷ []

abbrev counted : SyncResult
counted = record no_result { unchanged = 1; conflicts = 1; conflict_usernames = "bob" ∷ [] }

is_counted : (sync_users env two_pages source []).0 ≡ ok counted
unfolding sync_users find_existing_users get_existing_users fetch_users_page read_page call lift
    pure ◌>>=◌ apple_single_page read_on validate_users_page next_users_page_url index_users
    index_unique_user index_user read_pages is_safe_user_id find put stripped normalize_identifier
    normalize_email strip lstrip rstrip is_space any_char dicts_of get get_or is_true has_key
    all_have_external_id sync_existing sync_each sync_user match_apple_user reconcile_diffs
    reconcile_eligible update_fields field_diffs diff_fields primary_email_of email_from
    update_fields_for_mode mode_field_to_diff_keys allowed_keys only_keys actionable_diffs any_diff
    any_other keys_of is_changed tally username_recovery_allowed can_recover_by_username
    record_username_conflict
is_counted = refl

sync_users-score_example : (2 ≤ score counted) × (score counted ≤ 2 * 2)
sync_users-score_example = sync_users-score env two_pages source [] counted is_counted

find_existing_users-all_get_example : all_get (find_existing_users env two_pages source []).1 ≡ true
find_existing_users-all_get_example = find_existing_users-all_get env two_pages source [] no_writes

abbrev diffs : Diffs
diffs =
    ("userName", true)
    ∷ ("givenName", false)
    ∷ ("familyName", false)
    ∷ ("active", false)
    ∷ ("email", false)
    ∷ ("externalId", false)
    ∷ []

is_renamed : field_diffs env ann (user "" "anna" "1") true ≡ ok diffs
unfolding field_diffs diff_fields stripped normalize_identifier normalize_email primary_email_of
    email_from strip lstrip rstrip is_space get get_or is_true
is_renamed = refl

is_in_scope : any_diff (actionable_diffs diffs "patch_all") ≡ true
unfolding any_diff actionable_diffs update_fields_for_mode allowed_keys mode_field_to_diff_keys
    only_keys
is_in_scope = refl

build_update_request-returns_example :
    (request : UpdateRequest) × (build_update_request env
        (user "" "anna" "1")
        "patch_all"
        "u1"
        (actionable_diffs diffs "patch_all")
      ≡ ok request)
build_update_request-returns_example =
    build_update_request-returns env ann (user "" "anna" "1") true diffs "patch_all" "u1" is_renamed
      is_in_scope

abbrev run : Run
run = record { sent = []; result = no_result; indexes = indexes }

-- The account of bob, for another user of that name.
reconcile_diffs-all_to_example :
    (all_to
        (user_url env "u2")
        (reconcile_diffs env two_pages bob (user "" "bob" "3") true true run).1.sent
      ≡ true)
    × ((true && not (can_recover_by_username env bob (text "3"))) ≡ false
        ⊎ (reconcile_diffs env two_pages bob (user "" "bob" "3") true true run).1.sent ≡ [])
unfolding all_to get
reconcile_diffs-all_to_example =
    reconcile_diffs-all_to env two_pages bob (user "" "bob" "3") true true run refl
