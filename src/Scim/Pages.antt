-- ===== src/Scim/Pages.antt =====
-- app/scim/apple.py: the validation of one page of Apple's users and the URL of the next.
use Prim.Native.String.{◌++◌}
use ssf_transmitter.Prelude.{
  ℕ, suc, ◌+◌, ◌-◌, String, Bool, false, not, ◌&&◌, Option, none, some, List, [], ◌∷◌, ltb, leb,
  ◌==◌, nat_eq, if◌then◌else◌, length, is_empty,
}
use ssf_transmitter.Result.{
  Result, ok, err, unexpected, user_list_error, ◌>>=◌, ◌>>◌, raise_if, or_raise,
}
use ssf_transmitter.Value.{
  Value, Items, Fields, int, arr, obj, nil, cons, field, get, get_or, as_int,
}
use ssf_transmitter.Environment.{Env}
use ssf_transmitter.Scim.Http.{Reply, response}
use ssf_transmitter.Scim.Identity.{apple_scim_base, Seen, index_users}

abbrev pub user_list_count : ℕ
user_list_count = 200

abbrev pub list_error {ℓ} : {A : Type ℓ} → String → Result A
list_error m = err (user_list_error m)

-- The JSON object of a page.
unfoldable pub read_page : Reply → Result Fields
read_page (response status body) =
    if not (status == 200)
    then list_error "Apple SCIM user listing returned an HTTP error"
    else elim body [
      | none ↦ list_error "Apple SCIM user listing returned non-JSON"
      | some (obj page) ↦ ok page
      | some _ ↦ list_error "Apple SCIM user listing returned an invalid response"
    ]

abbrev pub count_items : Items → ℕ
count_items nil = 0
count_items (cons v vs) = suc (count_items vs)

-- The dictionaries of a list that has nothing else.
abbrev pub add_dict : Value → Option (List Fields) → Option (List Fields)
add_dict (obj user) (some users) = some (user ∷ users)
add_dict _ _ = none

unfoldable pub dicts_of : Items → Option (List Fields)
dicts_of nil = some []
dicts_of (cons v vs) = add_dict v (dicts_of vs)

abbrev pub list_of_dicts : Value → Option (List Fields)
list_of_dicts (arr items) = dicts_of items
list_of_dicts _ = none

abbrev pub is_other : Option ℕ → ℕ → Bool
is_other none total = false
is_other (some expected) total = not (total == expected)

-- The users of a page and the total that it names.
unfoldable pub validate_users_page : Fields → ℕ → Option ℕ → Result (List Fields × ℕ)
unfolding dicts_of
validate_users_page page expected_start expected_total = do
  total ←
      or_raise (as_int (get page "totalResults"))
        (user_list_error "Apple SCIM user listing has an invalid totalResults")
  raise_if (is_other expected_total total)
      (user_list_error "Apple SCIM user listing changed during pagination")
  start ←
      or_raise (as_int (get_or page "startIndex" (int expected_start)))
        (user_list_error "Apple SCIM user listing has an unexpected startIndex")
  raise_if (not (start == expected_start))
      (user_list_error "Apple SCIM user listing has an unexpected startIndex")
  users ←
      or_raise (list_of_dicts (get_or page "Resources" (arr nil)))
        (user_list_error "Apple SCIM user listing has invalid Resources")
  per_page ←
      or_raise (as_int (get_or page "itemsPerPage" (int (length users))))
        (user_list_error "Apple SCIM user listing has an invalid itemsPerPage")
  raise_if (not (per_page == length users))
      (user_list_error "Apple SCIM user listing has an invalid itemsPerPage")
  raise_if (ltb total (start - 1 + length users))
      (user_list_error "Apple SCIM user listing exceeds totalResults")
  raise_if (is_empty users && leb start total)
      (user_list_error "Apple SCIM user listing ended before all users were returned")
  ok (users, total)

abbrev pub len_resources : Fields → ℕ
len_resources page = elim (get_or page "Resources" (arr nil)) [
  | arr items ↦ count_items items
  | _ ↦ 0
]

abbrev page_url : Env → ℕ → String
page_url e start = apple_scim_base ++ ("/Users?count=200&startIndex=" ++ e.show (int start))

abbrev next_page : Env → ℕ → ℕ → ℕ → Result (Option String)
next_page e total start per_page =
    if per_page == 0
    then raise_if (leb start total)
        (user_list_error "Apple SCIM user listing ended before all users were returned")
      >> ok none
    else ok
        (if ltb (start + per_page - 1) total then some (page_url e (start + per_page)) else none)

-- A field that is no natural number, which no validated page has, raises TypeError.
unfoldable pub next_users_page_url : Env → Fields → ℕ → Result (Option String)
next_users_page_url e page expected_start = do
  total ← or_raise (as_int (get page "totalResults")) unexpected
  start ← or_raise (as_int (get_or page "startIndex" (int expected_start))) unexpected
  per_page ← or_raise (as_int (get_or page "itemsPerPage" (int (len_resources page)))) unexpected
  next_page e total start per_page

-- The metadata that Apple is observed to send: an index behind the users, and the requested count.
abbrev pub is_single : Value → Option ℕ → Option ℕ → Option ℕ → ℕ → Bool
is_single (arr items) (some total) (some start) (some per_page) requested =
    total == count_items items && start == count_items items + 1 && per_page == requested
is_single _ _ _ _ requested = false

-- The page with its metadata normalized: `get` finds the first entry of a key.
abbrev pub normalized_page : Fields → Fields
normalized_page page =
    field "startIndex" (int 1) (field "itemsPerPage" (int (len_resources page)) page)

unfoldable pub apple_single_page : Fields → ℕ → Result (Option (List Fields))
unfolding validate_users_page
apple_single_page page requested =
    if is_single (get page "Resources") (as_int (get page "totalResults"))
      (as_int (get page "startIndex")) (as_int (get page "itemsPerPage")) requested
    then raise_if (ltb requested (len_resources page))
        (user_list_error "Apple SCIM user listing exceeds the requested count")
      >> (validate_users_page (normalized_page page) 1 none >>= λ valid. ok (some valid.0))
    else ok none

-- How far a listing has come: the users so far, the index expected next, the total, and the URL of
-- the next page.
pub record Walk : Type 0 where
  pub seen : Seen
  pub start : ℕ
  pub total : ℕ
  pub next : Option String

-- The body of the loop, behind the fetch.
unfoldable pub read_on : Env → Fields → Seen → ℕ → Option ℕ → Result Walk
unfolding validate_users_page next_users_page_url
read_on e page seen start expected_total = do
  valid ← validate_users_page page start expected_total
  seen' ← index_users e valid.0 seen
  next ← next_users_page_url e page start
  ok (record { seen = seen'; start = start + length valid.0; total = valid.1; next = next })
