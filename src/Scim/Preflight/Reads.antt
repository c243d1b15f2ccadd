-- ===== src/Scim/Preflight/Reads.antt =====
-- What exists at Apple is found by reading alone.
use ssf_transmitter.Prelude.{
  ℕ, zero, suc, String, ◌≡◌, Bool, true, false, not, ◌||◌, ◌&&◌, Option, none, some, List, [], ◌∷◌,
}
use ssf_transmitter.Result.{Result, ok, err, or_raise, raise_if, unexpected, user_list_error}
use ssf_transmitter.Value.{Fields, text}
use ssf_transmitter.Environment.{Env}
use ssf_transmitter.Scim.Http.{
  get_, ScimRequest, Sent, Io, Apple, call, lift, pure, ◌>>=◌, continue, replied,
}
use ssf_transmitter.Scim.Identity.{
  Index, Indexes, Seen, find, normalize_identifier, index_user_list, source_identities, none_seen,
  same_identity, user_url, index_unique_user,
}
use ssf_transmitter.Scim.Pages.{Walk, read_page, read_on, apple_single_page, user_list_count}
use ssf_transmitter.Scim.Listing.{
  Listing, listed, lookup_required, as_listed, or_network_error, fetch_users_page, read_pages,
  read_rest, first_url, get_existing_users,
}
use ssf_transmitter.Scim.Lookup.{
  Lookup, filter_url, validate_filtered_user, disagrees, has_name_dict, record_filtered_identity,
  all_consistent,
}
use ssf_transmitter.Scim.Preflight.{
  lookup_filtered_user, lookup_all, verify_all, get_existing_users_by_filter, find_existing_users,
}

abbrev pub is_get : ScimRequest → Bool
is_get r = elim r.method [ get_ ↦ true | _ ↦ false ]

-- No request changes anything.
unfoldable pub all_get : Sent → Bool
all_get [] = true
all_get (r ∷ sent) = is_get r && all_get sent

-- An action that only reads.
record Reads {ℓ} {A : Type ℓ} (m : Io A) : Type 0 where
  keeps : (sent : Sent) → all_get sent ≡ true → all_get (m sent).1 ≡ true

Reads-pure {ℓ} : {A : Type ℓ} (a : A) → Reads (pure a)
unfolding pure
Reads-pure a = record { keeps = λ sent h. h }

Reads-lift {ℓ} : {A : Type ℓ} (r : Result A) → Reads (lift r)
unfolding lift
Reads-lift r = record { keeps = λ sent h. h }

keeps-continue {ℓ κ} :
    {A : Type ℓ} {B : Type κ} (k : A → Io B) (r : Result A × Sent)
    → ((a : A) → Reads (k a))
    → all_get r.1 ≡ true
    → all_get (continue k r).1 ≡ true
keeps-continue k (ok a, sent) h g = (h a).keeps sent g
keeps-continue k (err x, sent) h g = g

Reads-bind {ℓ κ} :
    {A : Type ℓ} {B : Type κ} {m : Io A} {k : A → Io B}
    → Reads m
    → ((a : A) → Reads (k a))
    → Reads (m >>= k)
unfolding ◌>>=◌
Reads-bind {m = m} {k = k} first rest = record {
  keeps = λ sent h. keeps-continue k (m sent) rest (first.keeps sent h);
}

Reads-call :
    (apple : Apple) (url : String)
    → Reads (call apple (record { method = get_; url = url; body = none }))
unfolding call all_get
Reads-call apple url = record { keeps = λ sent h. h }

Reads-fetch : (apple : Apple) (url : String) → Reads (fetch_users_page apple url)
unfolding fetch_users_page
Reads-fetch apple url = Reads-bind (Reads-call apple url) (λ answer.
    Reads-bind (Reads-lift (or_network_error (replied answer))) (λ got. Reads-lift (read_page got)))

Reads-option {ℓ κ} :
    {A : Type ℓ} {B : Type κ} (o : Option A) {n : Io B} {k : A → Io B}
    → Reads n
    → ((a : A) → Reads (k a))
    → Reads (elim o [ none ↦ n | some a ↦ k a ])
Reads-option none first rest = first
Reads-option (some a) first rest = rest a

Reads-pages :
    (e : Env) (apple : Apple) (fuel : ℕ) (url : String) (w : Walk)
    → Reads (read_pages e apple fuel url w)
unfolding read_pages
Reads-pages e apple zero url w = Reads-pure _
Reads-pages e apple (suc fuel) url w = Reads-bind (Reads-fetch apple url) (λ (page : Fields).
    Reads-bind (Reads-lift (read_on e page w.seen w.start (some w.total))) (λ (w' : Walk).
      Reads-option w'.next (Reads-pure (some w'.seen.indexes))
        (λ url'. Reads-pages e apple fuel url' w')))

Reads-rest : (e : Env) (apple : Apple) (w : Walk) → Reads (read_rest e apple w)
Reads-rest e apple w =
    Reads-option w.next (Reads-pure (some (listed w.seen.indexes))) (λ url.
      Reads-bind (Reads-pages e apple w.total url w) (λ found. Reads-pure (as_listed found)))

Reads-existing : (e : Env) (apple : Apple) → Reads (get_existing_users e apple)
unfolding get_existing_users
Reads-existing e apple = Reads-bind (Reads-fetch apple first_url) (λ (page : Fields).
    Reads-bind (Reads-lift (apple_single_page page user_list_count))
      (λ (single : Option (List Fields)).
        Reads-option single
          (Reads-bind (Reads-lift (read_on e page none_seen 1 none))
            (λ (w : Walk). Reads-rest e apple w))
          (λ users.
            Reads-bind (Reads-lift (index_user_list e users))
              (λ (ix : Indexes). Reads-pure (some (lookup_required ix))))))

Reads-lookup :
    (e : Env) (apple : Apple) (attribute value : String) (sampled : Option Fields)
    → Reads (lookup_filtered_user e apple attribute value sampled)
unfolding lookup_filtered_user
Reads-lookup e apple attribute value sampled =
    Reads-bind (Reads-fetch apple (filter_url e attribute value)) (λ (page : Fields).
      Reads-bind (Reads-lift (validate_filtered_user e page attribute value))
        (λ (found : Option Fields).
          Reads-bind
            (Reads-lift (
              raise_if (disagrees e sampled found)
                (user_list_error "Apple SCIM filtered lookup disagrees with the initial listing")))
            (λ (checked : Unit {0}). Reads-pure found)))

Reads-lookups :
    (e : Env) (apple : Apple) (sample : Indexes) (by_id : Index)
    (identities : List (String × String))
    → Reads (lookup_all e apple sample by_id identities)
unfolding lookup_all
Reads-lookups e apple sample by_id [] = Reads-pure _
Reads-lookups e apple sample by_id ((external_id, username) ∷ identities) =
    Reads-bind
      (Reads-lookup e apple "externalId" external_id (find sample.by_external_id external_id))
      (λ (external_match : Option Fields).
        Reads-bind
          (Reads-lookup e apple "userName" username
            (find sample.by_username (normalize_identifier e (text username))))
          (λ (username_match : Option Fields).
            Reads-bind (Reads-lift (record_filtered_identity e by_id external_match))
              (λ (by_id' : Index).
                Reads-bind (Reads-lift (record_filtered_identity e by_id' username_match))
                  (λ (by_id'' : Index).
                    Reads-bind (Reads-lookups e apple sample by_id'' identities)
                      (λ (found : Index × List Lookup). Reads-pure (
                        found.0,
                        record {
                          external_id = external_id;
                          username = username;
                          external_match = external_match;
                          username_match = username_match;
                        }
                            ∷ found.1,
                      ))))))

Reads-verify :
    (e : Env) (apple : Apple) (by_id : Index) (seen : Seen) → Reads (verify_all e apple by_id seen)
unfolding verify_all
Reads-verify e apple [] seen = Reads-pure _
Reads-verify e apple ((user_id, filtered) ∷ by_id) seen =
    Reads-bind (Reads-fetch apple (user_url e user_id)) (λ (verified : Fields).
      Reads-bind
        (Reads-lift (
          raise_if
            (not (same_identity e (some filtered) (some verified)) || not (has_name_dict verified))
            (user_list_error "Apple SCIM user identity changed during lookup verification")))
        (λ (checked : Unit {0}).
          Reads-bind (Reads-lift (index_unique_user e verified seen))
            (λ (next : Seen). Reads-verify e apple by_id next)))

Reads-by_filter :
    (e : Env) (apple : Apple) (users : List Fields) (sample : Indexes)
    → Reads (get_existing_users_by_filter e apple users sample)
unfolding get_existing_users_by_filter
Reads-by_filter e apple users sample =
    Reads-bind (Reads-lift (source_identities e users)) (λ (identities : List (String × String)).
      Reads-bind (Reads-lookups e apple sample [] identities) (λ (found : Index × List Lookup).
        Reads-bind (Reads-verify e apple found.0 none_seen) (λ (seen : Seen).
          Reads-bind
            (Reads-lift (
              raise_if (not (all_consistent e seen.indexes found.1))
                (user_list_error "Apple SCIM filtered lookups returned inconsistent identities")))
            (λ (checked : Unit {0}). Reads-pure seen.indexes))))

Reads-listing :
    (e : Env) (apple : Apple) (users : List Fields) (listing : Listing)
    → Reads {A = Indexes × Bool} (elim listing [
      | listed ix ↦ pure (ix, false)
      | lookup_required sample ↦
          (get_existing_users_by_filter e apple users sample >>= λ ix. pure (ix, true))
    ])
Reads-listing e apple users (listed ix) = Reads-pure (ix, false)
Reads-listing e apple users (lookup_required sample) =
    Reads-bind (Reads-by_filter e apple users sample) (λ (ix : Indexes). Reads-pure (ix, true))

find_existing_users-Reads :
    (e : Env) (apple : Apple) (users : List Fields) → Reads (find_existing_users e apple users)
unfolding find_existing_users
find_existing_users-Reads e apple users =
    Reads-bind (Reads-existing e apple) (λ (result : Option Listing).
      Reads-bind (Reads-lift (or_raise result unexpected))
        (λ (listing : Listing). Reads-listing e apple users listing))

-- Finding what exists at Apple, over all pages and lookups and whether it returns or raises, adds no
-- request but GETs to those that were sent.
pub find_existing_users-all_get :
    (e : Env) (apple : Apple) (users : List Fields) (sent : Sent)
    → all_get sent ≡ true
    → all_get (find_existing_users e apple users sent).1 ≡ true
find_existing_users-all_get e apple users sent h =
    (find_existing_users-Reads e apple users).keeps sent h
