-- ===== src/Tests/Tokens.antt =====
-- The tokens of Apple SCIM and the sync route, at a stored row that has expired.
use ssf_transmitter.Prelude.{ℕ, ◌≡◌, refl, [], Option, none, some, String}
use ssf_transmitter.Result.{ok}
use ssf_transmitter.Value.{Value, arr, nil, int, text, obj, field, end, get, get_or, is_true}
use ssf_transmitter.Database.{Db, init_db}
use ssf_transmitter.Scim.Token.{
  TokenReply, response, expiry, save_tokens, load_tokens, save_refreshed, save_access, read_tokens,
  read_token_body, read_token_reply, refresh, get_valid_access_token,
}
use ssf_transmitter.Scim.Http.{reply}
use ssf_transmitter.Scim.Pages.{apple_single_page, read_on}
use ssf_transmitter.Scim.Identity.{index_users}
use ssf_transmitter.Scim.Run.{no_result}
use ssf_transmitter.Scim.Coordination.{new_coordinator, enter, release}
use ssf_transmitter.Routes.AppleScim.{apple_scim_enabled}
use ssf_transmitter.Routes.AppleScim.Sync.{
  Peers, Store, Synced, valid_token, source_users, sync_found, operation, sync,
}
use ssf_transmitter.Tests.Setting.{env}

abbrev expired : Db
expired = save_tokens 7 "old" (some "refresh") 100 init_db

abbrev read_int : Value → Option ℕ
read_int (int n) = some n
read_int _ = none

abbrev post : String → TokenReply
post token =
    response 200
      (some (obj (field "access_token" (text "new") (field "expires_in" (int 3600) end))))

abbrev refreshed : Db
refreshed = save_tokens 501 "new" none 3600 expired

is_refreshed : get_valid_access_token env read_int post 500 501 expired ≡ ok (some "new", refreshed)
unfolding get_valid_access_token load_tokens save_tokens expiry refresh read_token_reply
    read_token_body read_tokens save_access save_refreshed get
is_refreshed = refl

-- Authentik has no users, and Apple has none.
abbrev peers : Peers
peers = record {
  int = read_int;
  post = post;
  now = 500;
  later = 501;
  authentik = λ asked. reply 200 (some (obj (field "results" (arr nil) end)));
  fuel = 1;
  apple = λ sent.
      reply 200 (some (obj (field "totalResults" (int 0) (field "Resources" (arr nil) end))));
}

abbrev store : Store
store = record { db = expired; asked = []; sent = [] }

abbrev after : Synced
after = sync env peers new_coordinator store

-- The token is refreshed, and the listing of Apple's users is the one request.
is_synced : (after.result ≡ ok (some no_result)) × (after.store.db ≡ refreshed)
unfolding sync apple_scim_enabled enter release operation valid_token source_users sync_found get
    get_or is_true apple_single_page read_on index_users
is_synced = (refl, refl)
