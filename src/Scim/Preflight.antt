-- ===== src/Scim/Preflight.antt =====
-- app/scim/apple.py: `_get_existing_users_by_filter`, which looks every source user up before any
-- user of Apple's is written.
pub mod Reads
use ssf_transmitter.Prelude.{Bool, true, false, String, not, ◌||◌, Option, some, List, [], ◌∷◌}
use ssf_transmitter.Result.{user_list_error, raise_if, or_raise, unexpected}
use ssf_transmitter.Value.{Fields, text}
use ssf_transmitter.Environment.{Env}
use ssf_transmitter.Scim.Http.{Io, Apple, lift, pure, ◌>>=◌, ◌>>◌}
use ssf_transmitter.Scim.Identity.{
  Index, Indexes, Seen, none_seen, find, index_unique_user, normalize_identifier, same_identity,
  source_identities, user_url,
}
use ssf_transmitter.Scim.Lookup.{
  validate_filtered_user, filter_url, disagrees, record_filtered_identity, Lookup, all_consistent,
  has_name_dict,
}
use ssf_transmitter.Scim.Listing.{
  fetch_users_page, Listing, listed, lookup_required, get_existing_users,
}

unfoldable pub lookup_filtered_user :
    Env → Apple → String → String → Option Fields → Io (Option Fields)
unfolding fetch_users_page validate_filtered_user lift pure ◌>>=◌ same_identity
lookup_filtered_user e apple attribute value sampled = do
  page ← fetch_users_page apple (filter_url e attribute value)
  found ← lift (validate_filtered_user e page attribute value)
  lift (
      raise_if (disagrees e sampled found)
        (user_list_error "Apple SCIM filtered lookup disagrees with the initial listing"))
  pure found

-- The lookups of all source users, with the users found, by id.
unfoldable pub lookup_all :
    Env → Apple → Indexes → Index → List (String × String) → Io (Index × List Lookup)
unfolding lookup_filtered_user record_filtered_identity lift pure ◌>>=◌ find
lookup_all e apple sample by_id [] = pure (by_id, [])
lookup_all e apple sample by_id ((external_id, username) ∷ identities) = do
  external_match ←
      lookup_filtered_user e apple "externalId" external_id (find sample.by_external_id external_id)
  username_match ←
      lookup_filtered_user e apple "userName" username
        (find sample.by_username (normalize_identifier e (text username)))
  by_id' ← lift (record_filtered_identity e by_id external_match)
  by_id'' ← lift (record_filtered_identity e by_id' username_match)
  found ← lookup_all e apple sample by_id'' identities
  pure (
    found.0,
    record {
      external_id = external_id;
      username = username;
      external_match = external_match;
      username_match = username_match;
    }
        ∷ found.1,
  )

-- Every user found, read again by its id.
unfoldable pub verify_all : Env → Apple → Index → Seen → Io Seen
unfolding fetch_users_page index_unique_user lift pure ◌>>=◌ same_identity user_url
verify_all e apple [] seen = pure seen
verify_all e apple ((user_id, filtered) ∷ by_id) seen = do
  verified ← fetch_users_page apple (user_url e user_id)
  lift (
      raise_if
        (not (same_identity e (some filtered) (some verified)) || not (has_name_dict verified))
        (user_list_error "Apple SCIM user identity changed during lookup verification"))
  next ← lift (index_unique_user e verified seen)
  verify_all e apple by_id next

unfoldable pub get_existing_users_by_filter : Env → Apple → List Fields → Indexes → Io Indexes
unfolding lookup_all verify_all all_consistent source_identities lift pure ◌>>=◌
get_existing_users_by_filter e apple scim_users sample = do
  identities ← lift (source_identities e scim_users)
  found ← lookup_all e apple sample [] identities
  seen ← verify_all e apple found.0 none_seen
  lift (
      raise_if (not (all_consistent e seen.indexes found.1))
        (user_list_error "Apple SCIM filtered lookups returned inconsistent identities"))
  pure seen.indexes

-- The users of the listing, or of the lookups that it asks for, which the flag tells. A listing does
-- not run out of fuel.
unfoldable pub find_existing_users : Env → Apple → List Fields → Io (Indexes × Bool)
unfolding get_existing_users get_existing_users_by_filter lift pure ◌>>=◌
find_existing_users e apple users = do
  result ← get_existing_users e apple
  listing ← lift (or_raise result unexpected)
  elim listing [
    | listed ix ↦ pure (ix, false)
    | lookup_required sample ↦ do
      ix ← get_existing_users_by_filter e apple users sample
      pure (ix, true)
  ]
