-- ===== src/Scim/Users.antt =====
-- app/scim/authentik.py: the users of Authentik, page by page. Authentik answers by all URLs that were
-- asked, the last first.
pub mod Laws
use Prim.Native.String.{◌++◌}
use ssf_transmitter.Prelude.{
  ℕ, zero, suc, String, Bool, true, false, not, ◌||◌, Option, none, some, List, [], ◌∷◌, ◌==◌,
  nat_eq, string_eq, if◌then◌else◌, truthy, strip, text_or_empty,
}
use ssf_transmitter.Result.{Result, ok, err, unexpected}
use ssf_transmitter.Value.{Value, Items, Fields, text, arr, obj, nil, cons, get, get_or, is_true}
use ssf_transmitter.Environment.{Env}
use ssf_transmitter.Scim.Http.{Act, ScimReply, reply, no_reply, lift, pure, ◌>>=◌}
use ssf_transmitter.Scim.Url.{rstrip_slash}
use ssf_transmitter.Scim.Authentik.{filter_and_map_users}

abbrev pub Asked : Type 0
Asked = List String

abbrev pub Authentik : Type 0
Authentik = Asked → ScimReply

unfoldable pub ask : Authentik → String → Act Asked ScimReply
ask authentik url asked = (ok (authentik (url ∷ asked)), url ∷ asked)

-- The JSON of a good reply. A reply that is no object has no `get`.
abbrev pub page_of : ScimReply → Result (Option Fields)
page_of no_reply = ok none
page_of (reply status none) = ok none
page_of (reply status (some (obj found))) = if status == 200 then ok (some found) else ok none
page_of (reply status (some _)) = if status == 200 then err unexpected else ok none

-- A value that is no list does not extend the users.
abbrev pub results_of : Value → Result Items
results_of (arr items) = ok items
results_of _ = err unexpected

-- The URL of the next page; a value that is true and no text is no URL.
abbrev pub next_of : Value → Result (Option String)
next_of (text url) = ok (if truthy url then some url else none)
next_of v = if is_true v then err unexpected else ok none

unfoldable pub extend : Items → Items → Items
extend nil more = more
extend (cons v vs) more = cons v (extend vs more)

-- All users, None for an upstream error, or the fuel was too little: the loop has no bound.
pub data Fetched : Type 0 where
  fetched : Items → Fetched
  upstream_error unfinished : Fetched

unfoldable pub fetch_all_users : Authentik → ℕ → String → Items → Act Asked Fetched
unfolding ask extend lift pure ◌>>=◌
fetch_all_users authentik zero url all_users = pure unfinished
fetch_all_users authentik (suc fuel) url all_users = do
  answer ← ask authentik url
  page ← lift (page_of answer)
  elim page [
    | none ↦ pure upstream_error
    | some found ↦ do
      results ← lift (results_of (get_or found "results" (arr nil)))
      next ← lift (next_of (get found "next"))
      elim next [
        | none ↦ pure (fetched (extend all_users results))
        | some url' ↦ fetch_all_users authentik fuel url' (extend all_users results)
      ]
  ]

unfoldable pub build_initial_users_url : String → String → String
build_initial_users_url base group_id =
    if truthy group_id
    then base
      ++ ("/api/v3/core/users/?groups_by_pk=" ++ (group_id ++ "&type=internal&page_size=500"))
    else base ++ "/api/v3/core/users/?type=internal&page_size=500"

-- The mapped users, None for an error, both inside what the fuel allows.
abbrev pub map_fetched : Env → Fetched → Result (Option (Option (List Fields)))
map_fetched e unfinished = ok none
map_fetched e upstream_error = ok (some none)
map_fetched e (fetched items) = elim (filter_and_map_users e items) [
  | ok users ↦ ok (some (some users))
  | err x ↦ err x
]

abbrev pub get_users_at : Env → Authentik → ℕ → String → Act Asked (Option (Option (List Fields)))
get_users_at e authentik fuel url = do
  result ← fetch_all_users authentik fuel url nil
  lift (map_fetched e result)

unfoldable pub get_users : Env → Authentik → ℕ → Act Asked (Option (Option (List Fields)))
unfolding fetch_all_users rstrip_slash build_initial_users_url filter_and_map_users strip lift pure
    ◌>>=◌
get_users e authentik fuel =
    if not (truthy (text_or_empty e.settings.authentik_url))
      || not (truthy (text_or_empty e.settings.authentik_token))
    then pure (some none)
    else get_users_at e authentik fuel (
        build_initial_users_url (rstrip_slash (text_or_empty e.settings.authentik_url))
          (strip (text_or_empty e.settings.apple_scim_group_id)))
