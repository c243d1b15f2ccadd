-- ===== src/Scim/Listing/Steps.antt =====
-- What one page leaves behind in a listing.
use ssf_transmitter.Prelude.{
  ℕ, suc, ◌+◌, ◌-◌, ◌≤◌, ◌<◌, String, ◌≡◌, ◌⊎◌, inl, inr, refl, subst, true, false, Option, none,
  some, List, [], ◌∷◌, arith, length, Option-cases, string_eq, nat_eq, truthy_of_strip,
}
use ssf_transmitter.Result.{Result-cases, ok}
use ssf_transmitter.Value.{
  Value, Fields, Items, nil, cons, int, text, arr, obj, get, get_or, as_int, is_true,
}
use ssf_transmitter.Environment.{Env}
use ssf_transmitter.Scim.Identity.{
  Index, Seen, put, find, has, index_user, index_unique_user, index_users, is_blank,
  normalize_identifier,
}
use ssf_transmitter.Scim.Pages.{
  Walk, read_on, validate_users_page, next_users_page_url, list_of_dicts, dicts_of, count_items,
  len_resources,
}

length-put :
    (m : Index) (k : String) (u : Fields) → has m k ≡ false → length (put m k u) ≡ suc (length m)
unfolding put find
length-put [] k u h = refl
length-put ((j, w) ∷ m) k u h = ground (arith, length-put m k u)

-- The users by name, in number.
abbrev pub names : Seen → ℕ
names seen = length seen.indexes.by_username

not_blank_true : (v : Value) → is_blank v ≡ false → is_true v ≡ true
unfolding is_true
not_blank_true (text s) h = truthy_of_strip s (ground arith)
not_blank_true _ h = cc

names-index_unique_user :
    (e : Env) (user : Fields) (seen next : Seen)
    → index_unique_user e user seen ≡ ok next
    → names next ≡ suc (names seen)
unfolding index_unique_user index_user
names-index_unique_user e user seen next h = ground (
  arith,
  not_blank_true (get user "userName"),
  length-put seen.indexes.by_username (normalize_identifier e (get user "userName")) user,
)

names-index_users :
    (e : Env) (users : List Fields) (seen next : Seen)
    → index_users e users seen ≡ ok next
    → names next ≡ length users + names seen
unfolding index_users
names-index_users e [] seen next h = ground arith
names-index_users e (user ∷ users) seen next h =
    elim (Result-cases (index_unique_user e user seen)) [
      | inl (mid, first) ↦ ground (
        arith,
        names-index_users e users mid next (ground arith),
        names-index_unique_user e user seen mid first,
      )
      | inr (x, refused) ↦ absurd (ground arith)
    ]

-- What a validated page says.
record IsPage (page : Fields) (start : ℕ) (users : List Fields) (total : ℕ) : Type 0 where
  counted : len_resources page ≡ length users
  totals : as_int (get page "totalResults") ≡ some total
  starts : as_int (get_or page "startIndex" (int start)) ≡ some start
  paged : as_int (get_or page "itemsPerPage" (int (length users))) ≡ some (length users)
  fits : start - 1 + length users ≤ total
  ends : length users ≡ 0 → total < start

count_items-dicts_of :
    (vs : Items) (users : List Fields) → dicts_of vs ≡ some users → count_items vs ≡ length users
unfolding dicts_of
count_items-dicts_of nil users h = ground arith
count_items-dicts_of (cons (obj u) vs) users h = elim (Option-cases (dicts_of vs)) [
  | inl absent ↦ absurd (ground arith)
  | inr (rest, present) ↦ ground (arith, count_items-dicts_of vs rest present)
]
count_items-dicts_of (cons _ vs) users h = absurd (ground arith)

abbrev size : Value → ℕ
size (arr items) = count_items items
size _ = 0

counted_value :
    (v : Value) (users : List Fields) → list_of_dicts v ≡ some users → size v ≡ length users
counted_value (arr items) users h = count_items-dicts_of items users h
counted_value _ users h = absurd (ground arith)

counted_lem :
    (page : Fields) (users : List Fields)
    → list_of_dicts (get_or page "Resources" (arr nil)) ≡ some users
    → len_resources page ≡ length users
counted_lem page users h = counted_value (get_or page "Resources" (arr nil)) users h

validate-IsPage :
    (page : Fields) (start : ℕ) (expected : Option ℕ) (users : List Fields) (total : ℕ)
    → validate_users_page page start expected ≡ ok (users, total)
    → IsPage page start users total
unfolding validate_users_page
validate-IsPage page start expected users total h = record {
  counted = counted_lem page users (ground arith);
  totals = ground arith;
  starts = ground arith;
  paged = ground arith;
  fits = ground arith;
  ends = λ z. ground arith;
}

abbrev pub IsAt : Option String → ℕ → ℕ → ℕ → Type 0
IsAt next start total users =
    (next ≡ none) × (start ≡ suc total)
    ⊎ ((url : String) × (next ≡ some url) × (start ≤ total) × (0 < users))

next-IsAt :
    (e : Env) (page : Fields) (start : ℕ) (users : List Fields) (total : ℕ) (next : Option String)
    → 0 < start
    → IsPage page start users total
    → next_users_page_url e page start ≡ ok next
    → IsAt next (start + length users) total (length users)
unfolding next_users_page_url
next-IsAt e page start users total next pos p h = elim (Option-cases next) [
  | inl last ↦ inl (last, ground (arith, p.counted, p.totals, p.starts, p.paged, p.fits, p.ends))
  | inr (url, more) ↦ inr (
    url,
    more,
    ground (arith, p.counted, p.totals, p.starts, p.paged),
    ground (arith, p.counted, p.totals, p.starts, p.paged),
  )
]

-- What a page that is read leaves behind.
pub record IsWalked (seen : Seen) (start : ℕ) (w : Walk) : Type 0 where
  pub users : ℕ
  pub moved : w.start ≡ start + users
  pub named : names w.seen ≡ users + names seen
  pub at : IsAt w.next w.start w.total users

pub read_on-IsWalked :
    (e : Env) (page : Fields) (seen : Seen) (start : ℕ) (expected : Option ℕ) (w : Walk)
    → 0 < start
    → read_on e page seen start expected ≡ ok w
    → IsWalked seen start w
unfolding read_on
read_on-IsWalked e page seen start expected w pos h =
    elim (Result-cases (validate_users_page page start expected)) [
      | inr (x, refused) ↦ absurd (ground arith)
      | inl ((users, total), valid) ↦ elim (Result-cases (index_users e users seen)) [
        | inr (x, refused) ↦ absurd (ground arith)
        | inl (more, indexed) ↦ elim (Result-cases (next_users_page_url e page start)) [
          | inr (x, refused) ↦ absurd (ground arith)
          | inl (next, found) ↦ record {
            users = length users;
            moved = ground arith;
            named = ground (arith, names-index_users e users seen more indexed);
            at =
                subst {A = Walk} (λ v. IsAt v.next v.start v.total (length users))
                  {x = record {
                    seen = more;
                    start = start + length users;
                    total = total;
                    next = next;
                  }}
                  {y = w} (ground arith)
                  (next-IsAt e page start users total next pos
                    (validate-IsPage page start expected users total valid) found);
          }
        ]
      ]
    ]

-- The total is the same on every page.
pub read_on-total :
    (e : Env) (page : Fields) (seen : Seen) (start total : ℕ) (w : Walk)
    → read_on e page seen start (some total) ≡ ok w
    → w.total ≡ total
unfolding read_on validate_users_page
read_on-total e page seen start total w h = ground arith
