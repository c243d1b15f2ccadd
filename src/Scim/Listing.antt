-- ===== src/Scim/Listing.antt =====
-- app/scim/apple.py: the listing of all of Apple's users, page by page.
mod Steps
pub mod Laws
use Prim.Native.String.{◌++◌}
use ssf_transmitter.Prelude.{ℕ, zero, suc, ◌+◌, String, Option, none, some, List, [], ◌∷◌, length}
use ssf_transmitter.Result.{Result, ok, err}
use ssf_transmitter.Value.{Fields}
use ssf_transmitter.Environment.{Env}
use ssf_transmitter.Scim.Http.{
  Method, get_, ScimRequest, Io, Apple, Reply, response, call, replied, lift, pure, ◌>>=◌,
}
use ssf_transmitter.Scim.Identity.{
  apple_scim_base, Indexes, Seen, none_seen, index_users, index_user_list,
}
use ssf_transmitter.Scim.Pages.{
  user_list_count, list_error, read_page, validate_users_page, next_users_page_url,
  apple_single_page, Walk, read_on,
}

-- A network error is an error of the listing.
abbrev pub or_network_error : Result Reply → Result Reply
or_network_error (ok r) = ok r
or_network_error (err _) = list_error "Network error listing Apple SCIM users"

unfoldable pub fetch_users_page : Apple → String → Io Fields
unfolding read_page call lift ◌>>=◌
fetch_users_page apple url = do
  answer ← call apple (record { method = get_; url = url; body = none })
  got ← lift (or_network_error (replied answer))
  lift (read_page got)

-- The loop over the pages after the first. `none` stands for fuel that was too little.
unfoldable pub read_pages : Env → Apple → ℕ → String → Walk → Io (Option Indexes)
unfolding fetch_users_page pure lift ◌>>=◌
read_pages e apple zero url w = pure none
read_pages e apple (suc fuel) url w = do
  page ← fetch_users_page apple url
  w' ← lift (read_on e page w.seen w.start (some w.total))
  elim w'.next [ none ↦ pure (some w'.seen.indexes) | some url' ↦ read_pages e apple fuel url' w' ]

-- A complete listing, or the exception that asks for lookups of single users, with its sample.
pub data Listing : Type 0 where
  listed lookup_required : Indexes → Listing

abbrev pub as_listed : Option Indexes → Option Listing
as_listed none = none
as_listed (some ix) = some (listed ix)

-- The pages after the first: as much fuel as there are users.
abbrev pub read_rest : Env → Apple → Walk → Io (Option Listing)
read_rest e apple w = elim w.next [
  | none ↦ pure (some (listed w.seen.indexes))
  | some url ↦ do found ← read_pages e apple w.total url w; pure (as_listed found)
]

abbrev pub first_url : String
first_url = apple_scim_base ++ "/Users?count=200"

unfoldable pub get_existing_users : Env → Apple → Io (Option Listing)
unfolding fetch_users_page pure lift ◌>>=◌ read_pages
get_existing_users e apple = do
  page ← fetch_users_page apple first_url
  single ← lift (apple_single_page page user_list_count)
  elim single [
    | some users ↦ do ix ← lift (index_user_list e users); pure (some (lookup_required ix))
    | none ↦ do w ← lift (read_on e page none_seen 1 none); read_rest e apple w
  ]
