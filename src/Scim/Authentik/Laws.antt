-- ===== src/Scim/Authentik/Laws.antt =====
-- What the synchronisation may rely on of the users that it is given.
use ssf_transmitter.Prelude.{
  String, ◌≡◌, inl, inr, refl, sym, ap, subst, if◌then◌else◌, Bool, true, false, not, ◌&&◌, some,
  List, arith, Bool-cases, Option-cases, truthy, strip, strip-strip, truthy_of_strip, all,
}
use ssf_transmitter.Result.{Result, Result-cases, ok, err, unexpected}
use ssf_transmitter.Value.{
  Value, boolean, Items, Fields, nil, cons, text, get, get_or, has_key, is_true, as_dict,
}
use ssf_transmitter.Environment.{Env}
use ssf_transmitter.Scim.Identity.{is_blank}
use ssf_transmitter.Scim.Lookup.{has_name_dict}
use ssf_transmitter.Scim.Authentik.{
  text_or, user_name, text_of, scim_user, map_to_scim, map_with_email, map_with_pk, map_user,
  filter_and_map_users,
}

-- The user has an externalId, a userName that is not blank, and a name that is a dictionary.
abbrev pub is_syncable : Fields → Bool
is_syncable user =
    has_key user "externalId" && not (is_blank (get user "userName")) && has_name_dict user

scim_user-is_syncable :
    (e : Env) (pk active : Value) (full_name name email : String)
    → truthy (strip name) ≡ true
    → is_syncable (scim_user e pk full_name name email active) ≡ true
unfolding scim_user has_key get get_or
scim_user-is_syncable e pk active full_name name email h =
    let same = strip-strip name in ground arith

-- A value that is no text reads as the empty one, if it is read.
abbrev is_full : Result String → Bool
is_full (ok s) = truthy s
is_full (err x) = false

other-is_empty : (b : Bool) → is_full (if b then err unexpected else ok "") ≡ false
other-is_empty true = refl
other-is_empty false = refl

email-is_text :
    (v : Value) (email : String)
    → text_or v ≡ ok email
    → truthy (strip email) ≡ true
    → (is_true v ≡ true) × (text_of v ≡ ok email)
unfolding is_true
email-is_text (text s) email h some_email = (ground (arith, truthy_of_strip email some_email), h)
email-is_text v email h some_email =
    let read : truthy email ≡ is_full (text_or v) = ap is_full (sym h) in
    absurd (ground (arith, truthy_of_strip email some_email, other-is_empty (is_true v)))

map_to_scim-is_syncable :
    (e : Env) (user mapped : Fields) (email : String)
    → text_or (get user "email") ≡ ok email
    → truthy (strip email) ≡ true
    → map_to_scim e user ≡ ok mapped
    → is_syncable mapped ≡ true
unfolding map_to_scim
map_to_scim-is_syncable e user mapped email h some_email made =
    let is_text = email-is_text (get user "email") email h some_email in
    let named : user_name user ≡ ok email = ground (arith, is_text.0, is_text.1) in
    elim (Result-cases (text_or (get user "name"))) [
      | inr (x, failed) ↦ absurd (ground arith)
      | inl (full_name, found) ↦ elim (Bool-cases (has_key user "pk")) [
        | inr absent ↦ absurd (ground arith)
        | inl present ↦
            let same : scim_user e (get user "pk") full_name email email
                  (get_or user "is_active" (boolean true))
                ≡ mapped =
              ground arith in
            subst (λ m. is_syncable m ≡ true) same
              (scim_user-is_syncable e (get user "pk") (get_or user "is_active" (boolean true))
                full_name email email some_email)
      ]
    ]

map_user-is_syncable :
    (e : Env) (user mapped : Fields)
    → map_user e user ≡ ok (some mapped)
    → is_syncable mapped ≡ true
unfolding map_user map_with_pk map_with_email
map_user-is_syncable e user mapped h = elim (Bool-cases (is_true (get user "pk"))) [
  | inr absent ↦ absurd (ground arith)
  | inl present ↦ elim (Result-cases (text_or (get user "email"))) [
    | inr (x, failed) ↦ absurd (ground arith)
    | inl (email, read) ↦ elim (Bool-cases (truthy (strip email))) [
      | inr blank ↦ absurd (ground arith)
      | inl some_email ↦ elim (Result-cases (map_to_scim e user)) [
        | inr (x, failed) ↦ absurd (ground arith)
        | inl (m, made) ↦ map_to_scim-is_syncable e user mapped email read some_email (ground arith)
      ]
    ]
  ]
]

-- When the users of Authentik are filtered and mapped without an exception, each of them has an
-- externalId, a userName that is not blank, and a dictionary for a name: what the synchronisation
-- reads of its source users.
pub filter_and_map_users-is_syncable :
    (e : Env) (all_users : Items) (users : List Fields)
    → filter_and_map_users e all_users ≡ ok users
    → all is_syncable users ≡ true
unfolding filter_and_map_users
filter_and_map_users-is_syncable e nil users h = ground arith
filter_and_map_users-is_syncable e (cons u all_users) users h = elim (Option-cases (as_dict u)) [
  | inl other ↦ absurd (ground arith)
  | inr (user, dict) ↦ elim (Result-cases (map_user e user)) [
    | inr (x, failed) ↦ absurd (ground arith)
    | inl (mapped, made) ↦ elim (Result-cases (filter_and_map_users e all_users)) [
      | inr (x, failed) ↦ absurd (ground arith)
      | inl (rest, found) ↦
          let later = filter_and_map_users-is_syncable e all_users rest found in
          elim (Option-cases mapped) [
            | inl dropped ↦ ground (arith, later)
            | inr (m, kept) ↦ ground (arith, later, map_user-is_syncable e user m (ground arith))
          ]
    ]
  ]
]
