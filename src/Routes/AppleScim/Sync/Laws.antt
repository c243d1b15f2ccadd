-- ===== src/Routes/AppleScim/Sync/Laws.antt =====
-- What the sync route answers for.
use ssf_transmitter.Prelude.{◌*◌, ◌≤◌, String, ◌≡◌, true, some, List, length, all}
use ssf_transmitter.Result.{ok}
use ssf_transmitter.Value.{Fields}
use ssf_transmitter.Environment.{Env}
use ssf_transmitter.Scim.Token.{get_valid_access_token}
use ssf_transmitter.Scim.Token.Laws.{IsHeld}
use ssf_transmitter.Scim.Users.{Authentik, unfinished as out_of_fuel, get_users}
use ssf_transmitter.Scim.Authentik.Laws.{is_syncable}
use ssf_transmitter.Scim.Run.{SyncResult}
use ssf_transmitter.Scim.Reconcile.Laws.{score}
use ssf_transmitter.Scim.Sync.{sync_users}
use ssf_transmitter.Routes.AppleScim.Sync.{Peers, Store, unfinished}

-- What stands behind the counters, between the stores before and after: the token is the one that the
-- tables give, which is stored and had not expired; the users are those that Authentik gives, and all
-- that is asked of it and sent to Apple is for reading and synchronising just them; and the counters
-- are those of that synchronisation, each user once or twice.
pub record IsAudited (e : Env) (p : Peers) (before after : Store) (result : SyncResult)
    : Type 0 where
  pub token : String
  pub users : List Fields
  pub token_given :
      get_valid_access_token e p.int p.post p.now p.later before.db ≡ ok (some token, after.db)
  pub held : IsHeld p.now token after.db
  pub read : get_users e p.authentik p.fuel before.asked ≡ (ok (some (some users)), after.asked)
  pub syncable : all is_syncable users ≡ true
  pub synchronised : sync_users e p.apple users before.sent ≡ (ok result, after.sent)
  pub each_counted : length users ≤ score result
  pub at_most_twice : score result ≤ 2 * length users
