-- ===== src/Scim/Update/Laws.antt =====
-- The update of a user whose actionable fields differ is a request.
use ssf_transmitter.Prelude.{
  String, ◌≡◌, inl, inr, refl, subst, Bool, true, false, List, [], ◌∷◌, ◌==◌, string_eq, arith,
  Bool-cases, if◌then◌else◌, is_empty,
}
use ssf_transmitter.Result.{Result-cases, ok}
use ssf_transmitter.Value.{Value, Fields}
use ssf_transmitter.Environment.{Env}
use ssf_transmitter.Scim.Diff.{
  Diffs, name_of, diff_fields, field_diffs, update_fields_for_mode, allowed_keys, only_keys,
  actionable_diffs, any_diff,
}
use ssf_transmitter.Scim.Update.{
  UpdateRequest, fields_to_patch, changed_name_from, changed_name_operations, field_operations,
  operations_of, patch_request, build_update_request,
}

-- The comparison has read the name of the user.
field_diffs-name_of :
    (e : Env) (existing user : Fields) (with_id : Bool) (diffs : Diffs)
    → field_diffs e existing user with_id ≡ ok diffs
    → (name : Fields) × (name_of user ≡ ok name)
unfolding field_diffs
field_diffs-name_of e existing user with_id diffs h = elim (Result-cases (name_of user)) [
  | inl found ↦ found
  | inr (x, failed) ↦ elim (Result-cases (name_of existing)) [
    | inl (name, found) ↦ absurd (ground arith)
    | inr (y, refused) ↦ absurd (ground arith)
  ]
]

changed_name_operations-returns :
    (user name : Fields) (diffs : Diffs)
    → name_of user ≡ ok name
    → (os : List (String × Value)) × (changed_name_operations user diffs ≡ ok os)
unfolding changed_name_operations changed_name_from
changed_name_operations-returns user name diffs h =
    elim (Result-cases (changed_name_operations user diffs)) [
      | inl found ↦ found
      | inr (x, failed) ↦ absurd (ground arith)
    ]

operations_of-returns :
    (e : Env) (user name : Fields) (diffs : Diffs) (names : List String)
    → name_of user ≡ ok name
    → (os : List (String × Value)) × (operations_of e user diffs names ≡ ok os)
unfolding operations_of field_operations
operations_of-returns e user name diffs [] h = ([], refl)
operations_of-returns e user name diffs (n ∷ names) h =
    let rest = operations_of-returns e user name diffs names h in
    let here = changed_name_operations-returns user name diffs h in
    elim (Result-cases (operations_of e user diffs (n ∷ names))) [
      | inl found ↦ found
      | inr (x, failed) ↦ absurd (ground (arith, rest.1, here.1))
    ]

-- The differences as the comparison lists them.
abbrev table : Bool → Bool → Bool → Bool → Bool → Diffs → Diffs
table u g f a m ds =
    ("userName", u) ∷ ("givenName", g) ∷ ("familyName", f) ∷ ("active", a) ∷ ("email", m) ∷ ds

abbrev tail : Bool → Bool → Diffs
tail with_id x = if with_id then ("externalId", x) ∷ [] else []

-- Some field is updated whenever a field in scope differs.
abbrev IsCovered : List String → Type 0
IsCovered names =
    (u g f a m with_id x : Bool)
    → any_diff (only_keys (allowed_keys names) (table u g f a m (tail with_id x))) ≡ true
    → is_empty
        (fields_to_patch (only_keys (allowed_keys names) (table u g f a m (tail with_id x))) names)
      ≡ false

emails-IsCovered : IsCovered ("emails" ∷ [])
unfolding any_diff only_keys allowed_keys fields_to_patch
emails-IsCovered u g f a m with_id x h = ground arith

ids-IsCovered : IsCovered ("externalId" ∷ [])
unfolding any_diff only_keys allowed_keys fields_to_patch
ids-IsCovered u g f a m with_id x h = ground arith

names-IsCovered : IsCovered ("userName" ∷ [])
unfolding any_diff only_keys allowed_keys fields_to_patch
names-IsCovered u g f a m with_id x h = ground arith

all-IsCovered : IsCovered ("externalId" ∷ "userName" ∷ "name" ∷ "emails" ∷ "active" ∷ [])
unfolding any_diff only_keys allowed_keys fields_to_patch
all-IsCovered u g f a m with_id x h = ground arith

mode-IsCovered : (mode : String) → IsCovered (update_fields_for_mode mode)
unfolding update_fields_for_mode
mode-IsCovered mode = elim (Bool-cases (mode == "external_id_only")) [
  | inl ids ↦ rw ids ids-IsCovered
  | inr no_ids ↦ elim (Bool-cases (mode == "emails_only")) [
    | inl emails ↦ rw (no_ids, emails) emails-IsCovered
    | inr no_emails ↦ elim (Bool-cases (mode == "username_only")) [
      | inl names ↦ rw (no_ids, no_emails, names) names-IsCovered
      | inr no_names ↦ rw (no_ids, no_emails, no_names) all-IsCovered
    ]
  ]
]

IsTable : Diffs → Bool → Type 0
IsTable diffs with_id =
    (u : Bool) × (g : Bool) × (f : Bool) × (a : Bool) × (m : Bool) × (x : Bool) × (diffs
      ≡ table u g f a m (tail with_id x))

diff_fields-IsTable :
    (e : Env) (existing name user name' : Fields) (with_id : Bool)
    → IsTable (diff_fields e existing name user name' with_id) with_id
unfolding diff_fields IsTable
diff_fields-IsTable e existing name user name' with_id = (_, _, _, _, _, _, refl)

field_diffs-IsTable :
    (e : Env) (existing user : Fields) (with_id : Bool) (diffs : Diffs)
    → field_diffs e existing user with_id ≡ ok diffs
    → IsTable diffs with_id
unfolding field_diffs
field_diffs-IsTable e existing user with_id diffs h = elim (Result-cases (name_of existing)) [
  | inr (x, failed) ↦ absurd (ground arith)
  | inl (name, found) ↦ elim (Result-cases (name_of user)) [
    | inr (x, failed) ↦ absurd (ground arith)
    | inl (name', found') ↦
        let same : diff_fields e existing name user name' with_id ≡ diffs = ground arith in
        subst (λ ds. IsTable ds with_id) same
          (diff_fields-IsTable e existing name user name' with_id)
  ]
]

patch_request-returns :
    (e : Env) (user name : Fields) (diffs : Diffs) (names : List String)
    → name_of user ≡ ok name
    → is_empty names ≡ false
    → (request : UpdateRequest) × (patch_request e user diffs names ≡ ok request)
unfolding patch_request
patch_request-returns e user name diffs names h some_names =
    let made = operations_of-returns e user name diffs names h in
    elim (Result-cases (patch_request e user diffs names)) [
      | inl found ↦ found
      | inr (x, failed) ↦ absurd (ground (arith, made.1))
    ]

actionable-covered :
    (diffs : Diffs) (with_id : Bool) (mode : String)
    → IsTable diffs with_id
    → any_diff (actionable_diffs diffs mode) ≡ true
    → is_empty (fields_to_patch (actionable_diffs diffs mode) (update_fields_for_mode mode)) ≡ false
unfolding actionable_diffs IsTable
actionable-covered diffs with_id mode (u, g, f, a, m, x, same) differs =
    rw same (mode-IsCovered mode u g f a m with_id x (rw same at differs))

-- When two users are compared, and a field differs that the mode writes, then the request that
-- updates it is built: no mode of update fails for want of a changed field.
pub build_update_request-returns :
    (e : Env) (existing user : Fields) (with_id : Bool) (diffs : Diffs) (mode apple_id : String)
    → field_diffs e existing user with_id ≡ ok diffs
    → any_diff (actionable_diffs diffs mode) ≡ true
    → (request : UpdateRequest) × (build_update_request e user mode apple_id
          (actionable_diffs diffs mode)
        ≡ ok request)
unfolding build_update_request
build_update_request-returns e existing user with_id diffs mode apple_id compared differs =
    let named = field_diffs-name_of e existing user with_id diffs compared in
    let covered =
      actionable-covered diffs with_id mode
        (field_diffs-IsTable e existing user with_id diffs compared) differs in
    let patched =
      patch_request-returns e user named.0 (actionable_diffs diffs mode)
        (fields_to_patch (actionable_diffs diffs mode) (update_fields_for_mode mode)) named.1
        covered in
    elim (Bool-cases (mode == "replace_all")) [
      | inl replace ↦
          elim (Result-cases
            (build_update_request e user mode apple_id (actionable_diffs diffs mode))) [
              | inl found ↦ found
              | inr (x, failed) ↦ absurd (ground arith)
            ]
      | inr patches ↦ (patched.0, rw patches patched.1)
    ]
