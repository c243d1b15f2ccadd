-- ===== src/Scim/Run.antt =====
-- app/scim/apple.py: SyncResult, and the state of a synchronisation: what was sent, the counters, and
-- the users that the listing indexed.
use ssf_transmitter.Prelude.{
  ℕ, suc, String, Option, none, some, List, [], ◌∷◌, ◌++◌, ◌==◌, string_eq, if◌then◌else◌, truthy,
}
use ssf_transmitter.Result.{Result, ok, err, user_list_error}
use ssf_transmitter.Value.{Value, Fields, text, get}
use ssf_transmitter.Scim.Http.{ScimRequest, Act, Io, Sent, Apple, Reply, replied, call, lift, ◌>>=◌}
use ssf_transmitter.Scim.Identity.{Index, Indexes, id_of}

pub record SyncResult : Type 0 where
  pub created : ℕ
  pub updated : ℕ
  pub unchanged : ℕ
  pub conflicts : ℕ
  pub errors : ℕ
  pub update_400_invalid_request : ℕ
  pub out_of_scope_diffs : ℕ
  pub conflict_usernames : List String

abbrev pub no_result : SyncResult
no_result = record {
  created = 0;
  updated = 0;
  unchanged = 0;
  conflicts = 0;
  errors = 0;
  update_400_invalid_request = 0;
  out_of_scope_diffs = 0;
  conflict_usernames = [];
}

pub record Run : Type 0 where
  pub sent : Sent
  pub result : SyncResult
  pub indexes : Indexes

-- The counters keep what was counted when an action raises.
abbrev pub Step {ℓ} : Type ℓ → Type ℓ
Step A = Act Run A

unfoldable pub sending {ℓ} : {A : Type ℓ} → Io A → Step A
sending m run = ((m run.sent).0, record run { sent = (m run.sent).1 })

unfoldable pub tally : (SyncResult → SyncResult) → Step (Unit {0})
tally f run = (ok tt, record run { result = f run.result })

-- One request, whose failure raises httpx.HTTPError.
unfoldable pub request : Apple → ScimRequest → Io Reply
unfolding call lift ◌>>=◌
request apple r = do answer ← call apple r; lift (replied answer)

-- `except AppleUserListError`
abbrev pub caught {ℓ} : {A : Type ℓ} → Result A → Result (Option A)
caught (ok a) = ok (some a)
caught (err (user_list_error m)) = ok none
caught (err x) = err x

unfoldable pub catching {ℓ} : {A : Type ℓ} → Io A → Io (Option A)
catching m sent = (caught (m sent).0, (m sent).1)

abbrev pub count_created : SyncResult → SyncResult
count_created r = record r { created = suc r.created }

abbrev pub count_updated : SyncResult → SyncResult
count_updated r = record r { updated = suc r.updated }

abbrev pub count_unchanged : SyncResult → SyncResult
count_unchanged r = record r { unchanged = suc r.unchanged }

abbrev pub count_error : SyncResult → SyncResult
count_error r = record r { errors = suc r.errors }

abbrev pub count_400 : SyncResult → SyncResult
count_400 r = record r { update_400_invalid_request = suc r.update_400_invalid_request }

abbrev pub count_out_of_scope : SyncResult → SyncResult
count_out_of_scope r = record r { out_of_scope_diffs = suc r.out_of_scope_diffs }

abbrev pub add_username : Value → List String → List String
add_username (text s) names = if truthy s then names ++ (s ∷ []) else names
add_username _ names = names

unfoldable pub record_username_conflict : Fields → SyncResult → SyncResult
record_username_conflict user r = record r {
  conflicts = suc r.conflicts;
  conflict_usernames = add_username (get user "userName") r.conflict_usernames;
}

-- `apple_user.clear()` and `update`: the indexes hold the same object, which its id tells.
unfoldable pub replace_in : String → Fields → Index → Index
replace_in user_id user [] = []
replace_in user_id user ((key, u) ∷ m) =
    let rest = replace_in user_id user m in
    if id_of u == user_id then (key, user) ∷ rest else (key, u) ∷ rest

unfoldable pub replace_user : String → Fields → Step (Unit {0})
unfolding replace_in
replace_user user_id user run = (
  ok tt,
  record run {
    indexes = record {
      by_external_id = replace_in user_id user run.indexes.by_external_id;
      by_username = replace_in user_id user run.indexes.by_username;
    };
  },
)
