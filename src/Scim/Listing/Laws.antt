-- ===== src/Scim/Listing/Laws.antt =====
-- A listing ends, and is complete.
use ssf_transmitter.Prelude.{
  ℕ, zero, suc, ◌+◌, ◌≤◌, ◌<◌, String, ◌≡◌, ◌≢◌, ◌⊎◌, inl, inr, subst₂, Option, none, some, arith,
  length, string_eq, nat_eq,
}
use ssf_transmitter.Result.{Error, Result, Result-cases, ok, err}
use ssf_transmitter.Value.{Fields, get, as_int}
use ssf_transmitter.Environment.{Env}
use ssf_transmitter.Scim.Http.{Sent, Apple, lift, pure, ◌>>=◌}
use ssf_transmitter.Scim.Identity.{Indexes, Seen, none_seen, index_user_list}
use ssf_transmitter.Scim.Pages.{
  Walk, read_on, validate_users_page, apple_single_page, user_list_count,
}
use ssf_transmitter.Scim.Listing.{
  Listing, listed, lookup_required, read_pages, get_existing_users, fetch_users_page, read_rest,
  first_url,
}
use ssf_transmitter.Scim.Listing.Steps.{IsWalked, read_on-IsWalked, read_on-total, names}

-- The loop raises, or its indexes hold as many users as the total says.
abbrev IsFinished : Result (Option Indexes) → ℕ → Type 0
IsFinished r total =
    ((x : Error) × (r ≡ err x))
    ⊎ ((ix : Indexes) × (r ≡ ok (some ix)) × (length ix.by_username ≡ total))

read_pages-IsFinished :
    (e : Env) (apple : Apple) (fuel : ℕ) (url : String) (w : Walk) (sent : Sent)
    → 0 < w.start
    → w.start ≤ w.total
    → w.total < w.start + fuel
    → suc (names w.seen) ≡ w.start
    → IsFinished (read_pages e apple fuel url w sent).0 w.total
unfolding read_pages lift pure ◌>>=◌
read_pages-IsFinished e apple zero url w sent pos more enough named = absurd (ground arith)
read_pages-IsFinished e apple (suc fuel) url w sent pos more enough named =
    elim (Result-cases (fetch_users_page apple url sent).0) [
      | inr (x, failed) ↦ inl (x, ground arith)
      | inl (page, fetched) ↦ elim (Result-cases (read_on e page w.seen w.start (some w.total))) [
        | inr (x, failed) ↦ inl (x, ground arith)
        | inl (w', walked) ↦
            let step = read_on-IsWalked e page w.seen w.start (some w.total) w' pos walked in
            let same = read_on-total e page w.seen w.start w.total w' walked in
            elim step.at [
              | inl (last, all) ↦
                  inr (w'.seen.indexes, ground arith, ground (arith, step.named, step.moved))
              | inr (url', continues, before, some_users) ↦
                  let sent' = (fetch_users_page apple url sent).1 in
                  subst₂ IsFinished {x = (read_pages e apple fuel url' w' sent').0}
                    {y = (read_pages e apple (suc fuel) url w sent).0} (ground arith) same
                    (read_pages-IsFinished e apple fuel url' w' sent' (ground (arith, step.moved))
                      before (ground (arith, step.moved)) (ground (arith, step.named, step.moved)))
            ]
      ]
    ]

read_rest-IsFinished :
    (e : Env) (apple : Apple) (w : Walk) (sent : Sent)
    → IsWalked none_seen 1 w
    → ((x : Error) × ((read_rest e apple w sent).0 ≡ err x))
      ⊎ ((ix : Indexes) × ((read_rest e apple w sent).0 ≡ ok (some (listed ix)))
          × (length ix.by_username ≡ w.total))
unfolding pure ◌>>=◌
read_rest-IsFinished e apple w sent step = elim step.at [
  | inl (last, all) ↦ inr (w.seen.indexes, ground arith, ground (arith, step.named, step.moved))
  | inr (url, continues, before, some_users) ↦
      elim (read_pages-IsFinished e apple w.total url w sent (ground (arith, step.moved)) before
        (ground (arith, step.moved)) (ground (arith, step.named, step.moved))) [
          | inl (x, failed) ↦ inl (x, ground arith)
          | inr (ix, found, all) ↦ inr (ix, ground arith, all)
        ]
]

read_on-total_results :
    (e : Env) (page : Fields) (seen : Seen) (start : ℕ) (expected : Option ℕ) (w : Walk)
    → read_on e page seen start expected ≡ ok w
    → as_int (get page "totalResults") ≡ some w.total
unfolding read_on validate_users_page
read_on-total_results e page seen start expected w h = ground arith

-- How a listing ends, whose first page is the given one.
abbrev IsEnd : Result (Option Listing) → Fields → Type 0
IsEnd r page =
    ((x : Error) × (r ≡ err x))
    ⊎ (((ix : Indexes) × (r ≡ ok (some (lookup_required ix))))
        ⊎ ((ix : Indexes) × (r ≡ ok (some (listed ix)))
            × (as_int (get page "totalResults") ≡ some (length ix.by_username))))

get_existing_users-IsEnd :
    (e : Env) (apple : Apple) (sent : Sent) (page : Fields)
    → (fetch_users_page apple first_url sent).0 ≡ ok page
    → IsEnd (get_existing_users e apple sent).0 page
unfolding get_existing_users lift pure ◌>>=◌
get_existing_users-IsEnd e apple sent page fetched =
    elim (Result-cases (apple_single_page page user_list_count)) [
      | inr (x, failed) ↦ inl (x, ground arith)
      | inl (some users, single) ↦ elim (Result-cases (index_user_list e users)) [
        | inr (x, failed) ↦ inl (x, ground arith)
        | inl (ix, indexed) ↦ inr (inl (ix, ground arith))
      ]
      | inl (none, single) ↦ elim (Result-cases (read_on e page none_seen 1 none)) [
        | inr (x, failed) ↦ inl (x, ground arith)
        | inl (w, walked) ↦
            elim (read_rest-IsFinished e apple w (fetch_users_page apple first_url sent).1
              (read_on-IsWalked e page none_seen 1 none w (ground arith) walked)) [
                | inl (x, failed) ↦ inl (x, ground arith)
                | inr (ix, found, all) ↦ inr (
                    inr (
                      ix,
                      ground arith,
                      ground (arith, read_on-total_results e page none_seen 1 none w walked),
                    ))
              ]
      ]
    ]

-- Whatever Apple answers, the listing of its users does not run out of the fuel it is given, which
-- is the total of the first page: it raises or returns a listing.
pub get_existing_users_terminates :
    (e : Env) (apple : Apple) (sent : Sent) → (get_existing_users e apple sent).0 ≢ ok none
unfolding get_existing_users ◌>>=◌
get_existing_users_terminates e apple sent h =
    elim (Result-cases (fetch_users_page apple first_url sent).0) [
      | inr (x, failed) ↦ absurd (ground arith)
      | inl (page, fetched) ↦ elim (get_existing_users-IsEnd e apple sent page fetched) [
        | inl (x, failed) ↦ absurd (ground arith)
        | inr (inl (ix, found)) ↦ absurd (ground arith)
        | inr (inr (ix, found, all)) ↦ absurd (ground arith)
      ]
    ]

-- When the first page is read, and the listing returns as complete and not with the request for
-- lookups of single users, then it holds as many users by name as the `totalResults` of that page,
-- over however many pages they came.
pub get_existing_users_complete :
    (e : Env) (apple : Apple) (sent : Sent) (page : Fields) (ix : Indexes)
    → (fetch_users_page apple first_url sent).0 ≡ ok page
    → (get_existing_users e apple sent).0 ≡ ok (some (listed ix))
    → as_int (get page "totalResults") ≡ some (length ix.by_username)
get_existing_users_complete e apple sent page ix fetched h =
    elim (get_existing_users-IsEnd e apple sent page fetched) [
      | inl (x, failed) ↦ absurd (ground arith)
      | inr (inl (ix', found)) ↦ absurd (ground arith)
      | inr (inr (ix', found, all)) ↦ ground arith
    ]
