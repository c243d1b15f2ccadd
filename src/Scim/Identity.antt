-- ===== src/Scim/Identity.antt =====
-- app/scim/apple.py: the identities of users, and the indexes that a listing builds from them. A
-- user is a dictionary.
use Prim.Native.String.{◌++◌}
use ssf_transmitter.Prelude.{
  ℕ, String, Bool, true, false, not, ◌&&◌, ◌||◌, Option, none, some, List, [], ◌∷◌, ltb, ◌==◌,
  string_eq, nat_eq, if◌then◌else◌, truthy, strip, elem, any_char,
}
use ssf_transmitter.Result.{Result, ok, user_list_error, ◌>>=◌, ◌>>◌, raise_if}
use ssf_transmitter.Value.{Value, Fields, text, get, is_true, is_text}
use ssf_transmitter.Environment.{Env}

abbrev pub apple_scim_base : String
apple_scim_base = "https://federation.apple.com/feeds/business/scim"

-- `str(value)`
abbrev pub str : Env → Value → String
str e (text s) = s
str e v = e.show v

-- `str(value or "").strip()`
unfoldable pub stripped : Env → Value → String
stripped e v = strip (if is_true v then str e v else "")

unfoldable pub normalize_identifier : Env → Value → String
unfolding stripped
normalize_identifier e v = e.lower (stripped e v)

unfoldable pub normalize_email : Env → Value → String
unfolding stripped
normalize_email e v = e.lower (stripped e v)

-- Slash, backslash, percent sign, and the control characters.
abbrev pub is_unsafe_char : ℕ → Bool
is_unsafe_char c = c == 47 || c == 92 || c == 37 || ltb c 32 || c == 127

unfoldable pub is_safe_user_id : Value → Bool
is_safe_user_id (text s) =
    s == strip s && not (elem s ("" ∷ "." ∷ ".." ∷ [])) && not (any_char is_unsafe_char s)
is_safe_user_id _ = false

unfoldable pub user_url : Env → String → String
user_url e user_id = apple_scim_base ++ ("/Users/" ++ e.quote user_id)

-- A dictionary from identifiers to users, in the order of insertion.
abbrev pub Index : Type 0
Index = List (String × Fields)

unfoldable pub find : Index → String → Option Fields
find [] k = none
find ((j, u) ∷ m) k = if j == k then some u else find m k

unfoldable pub put : Index → String → Fields → Index
put [] k u = (k, u) ∷ []
put ((j, w) ∷ m) k u = let rest = put m k u in if j == k then (k, u) ∷ m else (j, w) ∷ rest

abbrev pub has : Index → String → Bool
has m k = elim (find m k) [ none ↦ false | some _ ↦ true ]

pub record Indexes : Type 0 where
  pub by_external_id : Index
  pub by_username : Index

abbrev pub no_users : Indexes
no_users = record { by_external_id = []; by_username = [] }

-- A user under its externalId and its userName.
unfoldable pub index_user : Env → Fields → Indexes → Indexes
unfolding put
index_user e user ix = record {
  by_external_id =
      if is_true (get user "externalId")
      then put ix.by_external_id (strip (str e (get user "externalId"))) user
      else ix.by_external_id;
  by_username =
      if is_true (get user "userName")
      then put ix.by_username (normalize_identifier e (get user "userName")) user
      else ix.by_username;
}

-- The indexes with the ids seen.
pub record Seen : Type 0 where
  pub ids : List String
  pub indexes : Indexes

abbrev pub none_seen : Seen
none_seen = record { ids = []; indexes = no_users }

-- The text of an id that is safe.
abbrev pub id_of : Fields → String
id_of user = elim (get user "id") [ text s ↦ s | _ ↦ "" ]

-- `not isinstance(value, str) or not value.strip()`
abbrev pub is_blank : Value → Bool
is_blank (text s) = not (truthy (strip s))
is_blank _ = true

unfoldable pub index_unique_user : Env → Fields → Seen → Result Seen
unfolding index_user find
index_unique_user e user seen = do
  raise_if (not (is_safe_user_id (get user "id")))
      (user_list_error "Apple SCIM user listing contains a user with an invalid id")
  raise_if (is_blank (get user "userName"))
      (user_list_error "Apple SCIM user listing contains a user without a userName")
  let external_id = stripped e (get user "externalId")
  raise_if
      (elem (id_of user) seen.ids
        || has seen.indexes.by_username (normalize_identifier e (get user "userName"))
        || (truthy external_id && has seen.indexes.by_external_id external_id))
      (user_list_error "Apple SCIM user listing contains duplicate identities")
  ok (record { ids = id_of user ∷ seen.ids; indexes = index_user e user seen.indexes })

unfoldable pub index_users : Env → List Fields → Seen → Result Seen
unfolding index_unique_user
index_users e [] seen = ok seen
index_users e (user ∷ users) seen = do
  next ← index_unique_user e user seen
  index_users e users next

unfoldable pub index_user_list : Env → List Fields → Result Indexes
unfolding index_users
index_user_list e users = do seen ← index_users e users none_seen; ok seen.indexes

-- The id of the first user is a text wherever two users are compared.
abbrev pub same_id : Value → Value → Bool
same_id (text s) v = is_text v s
same_id _ v = false

abbrev pub same_user : Env → Fields → Fields → Bool
same_user e first second =
    same_id (get first "id") (get second "id")
    && normalize_identifier e (get first "userName")
      == normalize_identifier e (get second "userName")
    && stripped e (get first "externalId") == stripped e (get second "externalId")

unfoldable pub same_identity : Env → Option Fields → Option Fields → Bool
same_identity e none none = true
same_identity e none (some _) = false
same_identity e (some _) none = false
same_identity e (some first) (some second) = same_user e first second

-- The externalId and the userName of each source user; `ids` and `names` are those before.
unfoldable pub source_identities_from :
    Env → List String → List String → List Fields → Result (List (String × String))
source_identities_from e ids names [] = ok []
source_identities_from e ids names (user ∷ users) = do
  let external_id = stripped e (get user "externalId")
  let username = get user "userName"
  let name = normalize_identifier e username
  raise_if (not (truthy external_id) || is_blank username)
      (user_list_error "Authentik SCIM user has an invalid identity")
  raise_if (elem external_id ids || elem name names)
      (user_list_error "Authentik SCIM users contain duplicate identities")
  rest ← source_identities_from e (external_id ∷ ids) (name ∷ names) users
  ok ((external_id, str e username) ∷ rest)

unfoldable pub source_identities : Env → List Fields → Result (List (String × String))
unfolding source_identities_from
source_identities e users = source_identities_from e [] [] users
