-- ===== src/Scim/Update.antt =====
-- app/scim/apple.py: the request that updates a user.
pub mod Laws
use Prim.Native.String.{◌++◌ as append}
use ssf_transmitter.Prelude.{
  String, Bool, true, false, ◌||◌, List, [], ◌∷◌, ◌++◌, ◌==◌, string_eq, if◌then◌else◌, is_empty,
  map,
}
use ssf_transmitter.Result.{Result, ok, value_error, raise_if, ◌>>=◌, ◌>>◌}
use ssf_transmitter.Value.{
  Value, Items, Fields, boolean, text, arr, obj, nil, cons, field, end, get, get_or,
}
use ssf_transmitter.Environment.{Env}
use ssf_transmitter.Scim.Http.{Method, put, patch}
use ssf_transmitter.Scim.Identity.{stripped}
use ssf_transmitter.Scim.Diff.{
  Diffs, name_of, is_changed, update_fields_for_mode, mode_field_to_diff_keys,
}

-- `{k: v for k, v in user.items() if k != key}`
unfoldable pub without : String → Fields → Fields
without key end = end
without key (field k v d) = let rest = without key d in if k == key then rest else field k v rest

-- `d[key] = value`
unfoldable pub assign : String → Value → Fields → Fields
assign key value end = field key value end
assign key value (field k v d) =
    let rest = assign key value d in if k == key then field k value d else field k v rest

unfoldable pub any_changed : Diffs → List String → Bool
unfolding is_changed
any_changed diffs [] = false
any_changed diffs (key ∷ keys) = is_changed diffs key || any_changed diffs keys

unfoldable pub fields_to_patch : Diffs → List String → List String
unfolding any_changed mode_field_to_diff_keys
fields_to_patch diffs [] = []
fields_to_patch diffs (name ∷ names) =
    let rest = fields_to_patch diffs names in
    if any_changed diffs (mode_field_to_diff_keys name) then name ∷ rest else rest

-- A path with the value that replaces it.
abbrev pub Operation : Type 0
Operation = String × Value

abbrev pub operation_value : Operation → Value
operation_value o =
    obj (field "op" (text "Replace") (field "path" (text o.0) (field "value" o.1 end)))

unfoldable pub operation_items : List Operation → Items
operation_items [] = nil
operation_items (o ∷ os) = cons (operation_value o) (operation_items os)

-- The operation of one part of the name, if it changed.
abbrev pub subfield_operation : Fields → Bool → String → Result (List Operation)
subfield_operation user false subfield = ok []
subfield_operation user true subfield = do
  name ← name_of user
  ok ((append "name." subfield, get_or name subfield (text "")) ∷ [])

unfoldable pub changed_name_from : Fields → Diffs → List String → Result (List Operation)
unfolding is_changed
changed_name_from user diffs [] = ok []
changed_name_from user diffs (subfield ∷ subfields) = do
  here ← subfield_operation user (is_changed diffs subfield) subfield
  rest ← changed_name_from user diffs subfields
  ok (here ++ rest)

unfoldable pub changed_name_operations : Fields → Diffs → Result (List Operation)
unfolding changed_name_from
changed_name_operations user diffs = changed_name_from user diffs ("givenName" ∷ "familyName" ∷ [])

abbrev pub field_value : Env → Fields → String → Value
field_value e user name =
    if name == "externalId"
    then text (stripped e (get user "externalId"))
    else if name == "userName"
    then get user "userName"
    else if name == "emails"
    then get_or user "emails" (arr nil)
    else get_or user "active" (boolean true)

unfoldable pub field_operations : Env → Fields → Diffs → String → Result (List Operation)
unfolding changed_name_operations stripped
field_operations e user diffs name =
    if name == "name"
    then changed_name_operations user diffs
    else ok ((name, field_value e user name) ∷ [])

unfoldable pub operations_of : Env → Fields → Diffs → List String → Result (List Operation)
unfolding field_operations
operations_of e user diffs [] = ok []
operations_of e user diffs (name ∷ names) = do
  here ← field_operations e user diffs name
  rest ← operations_of e user diffs names
  ok (here ++ rest)

pub record UpdateRequest : Type 0 where
  pub method : Method
  pub body : Value
  pub fields : List String

abbrev pub patch_body : List Operation → Value
patch_body operations = obj (
    field "schemas" (arr (cons (text "urn:ietf:params:scim:api:messages:2.0:PatchOp") nil))
      (field "Operations" (arr (operation_items operations)) end))

unfoldable pub patch_request : Env → Fields → Diffs → List String → Result UpdateRequest
unfolding operations_of operation_items
patch_request e user diffs fields = do
  raise_if (is_empty fields) (value_error "Cannot build a PATCH without changed attributes")
  operations ← operations_of e user diffs fields
  ok (record { method = patch; body = patch_body operations; fields = map (λ o. o.0) operations })

unfoldable pub without_name : String → List String → List String
without_name s [] = []
without_name s (t ∷ ts) = let rest = without_name s ts in if t == s then rest else t ∷ rest

unfoldable pub put_body : Fields → String → Fields
unfolding without assign
put_body user apple_id = assign "id" (text apple_id) (without "externalId" user)

unfoldable pub build_update_request : Env → Fields → String → String → Diffs → Result UpdateRequest
unfolding put_body patch_request fields_to_patch update_fields_for_mode without_name
build_update_request e user mode apple_id diffs =
    if mode == "replace_all"
    then ok (record {
      method = put;
      body = obj (put_body user apple_id);
      fields = without_name "externalId" (update_fields_for_mode mode);
    })
    else patch_request e user diffs (fields_to_patch diffs (update_fields_for_mode mode))
