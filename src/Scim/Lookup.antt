-- ===== src/Scim/Lookup.antt =====
-- app/scim/apple.py: the lookups of single users by filter, for a listing that asks for them.
use Prim.Native.String.{◌++◌}
use ssf_transmitter.Prelude.{
  String, Bool, true, false, not, ◌&&◌, ◌||◌, Option, none, some, List, [], ◌∷◌, ltb, ◌==◌,
  string_eq, nat_eq, if◌then◌else◌, length,
}
use ssf_transmitter.Result.{Result, ok, user_list_error, raise_if, or_raise, ◌>>=◌, ◌>>◌}
use ssf_transmitter.Value.{Value, Fields, null, int, arr, obj, nil, end, text, get, get_or, as_int}
use ssf_transmitter.Environment.{Env}
use ssf_transmitter.Scim.Identity.{
  apple_scim_base, Index, Indexes, find, put, is_safe_user_id, is_blank, normalize_identifier,
  stripped, id_of, same_identity,
}
use ssf_transmitter.Scim.Pages.{list_of_dicts}

abbrev pub is_dict : Value → Bool
is_dict (obj d) = true
is_dict _ = false

-- `isinstance(user.get("name", {}), dict)`
abbrev pub has_name_dict : Fields → Bool
has_name_dict user = is_dict (get_or user "name" (obj end))

unfoldable pub filtered_resources : Fields → Result (List Fields)
filtered_resources page = do
  total ←
      or_raise (as_int (get page "totalResults"))
        (user_list_error "Apple SCIM filtered lookup has an invalid totalResults")
  start ←
      or_raise (as_int (get_or page "startIndex" (int 1)))
        (user_list_error "Apple SCIM filtered lookup has an invalid startIndex")
  raise_if (not (start == 0 || start == 1))
      (user_list_error "Apple SCIM filtered lookup has an invalid startIndex")
  resources ←
      or_raise (list_of_dicts (get_or page "Resources" (if total == 0 then arr nil else null)))
        (user_list_error "Apple SCIM filtered lookup has invalid Resources")
  per_page ←
      or_raise (as_int (get_or page "itemsPerPage" (int (length resources))))
        (user_list_error "Apple SCIM filtered lookup has inconsistent result counts")
  raise_if (not (per_page == length resources) || not (total == length resources))
      (user_list_error "Apple SCIM filtered lookup has inconsistent result counts")
  raise_if (ltb 1 total)
      (user_list_error "Apple SCIM filtered lookup returned multiple matching users")
  ok resources

abbrev pub attribute_matches : Env → Fields → String → String → Bool
attribute_matches e user attribute expected =
    if attribute == "userName"
    then normalize_identifier e (get user attribute) == normalize_identifier e (text expected)
    else stripped e (get user attribute) == expected

unfoldable pub validate_first : Env → List Fields → String → String → Result (Option Fields)
validate_first e [] attribute expected = ok none
validate_first e (user ∷ users) attribute expected = do
  raise_if (not (is_safe_user_id (get user "id")))
      (user_list_error "Apple SCIM filtered lookup has an invalid user id")
  raise_if (is_blank (get user "userName") || not (has_name_dict user))
      (user_list_error "Apple SCIM filtered lookup has invalid user attributes")
  raise_if (not (attribute_matches e user attribute expected))
      (user_list_error "Apple SCIM filtered lookup returned a mismatched identity")
  ok (some user)

unfoldable pub validate_filtered_user : Env → Fields → String → String → Result (Option Fields)
unfolding filtered_resources validate_first
validate_filtered_user e page attribute expected = do
  resources ← filtered_resources page
  validate_first e resources attribute expected

abbrev pub filter_url : Env → String → String → String
filter_url e attribute value =
    apple_scim_base
    ++ ("/Users?filter="
        ++ (attribute ++ ("%20eq%20" ++ (e.quote (e.quote_json value) ++ "&count=2"))))

-- `sampled is not None and not _same_identity(sampled, found)`
abbrev pub disagrees : Env → Option Fields → Option Fields → Bool
disagrees e none found = false
disagrees e (some sampled) found = not (same_identity e (some sampled) found)

unfoldable pub record_filtered_identity : Env → Index → Option Fields → Result Index
unfolding find put same_identity
record_filtered_identity e by_id none = ok by_id
record_filtered_identity e by_id (some found) = do
  raise_if (disagrees e (find by_id (id_of found)) (some found))
      (user_list_error "Apple SCIM filtered lookups disagree about a user")
  ok (put by_id (id_of found) found)

-- What the two lookups of a source user found.
pub record Lookup : Type 0 where
  pub external_id : String
  pub username : String
  pub external_match : Option Fields
  pub username_match : Option Fields

-- Whether the verified users agree with a lookup.
abbrev pub is_consistent : Env → Indexes → Lookup → Bool
is_consistent e ix l =
    same_identity e l.external_match (find ix.by_external_id l.external_id)
    && same_identity e l.username_match
        (find ix.by_username (normalize_identifier e (text l.username)))

unfoldable pub all_consistent : Env → Indexes → List Lookup → Bool
unfolding same_identity find
all_consistent e ix [] = true
all_consistent e ix (l ∷ ls) = is_consistent e ix l && all_consistent e ix ls
