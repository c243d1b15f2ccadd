-- ===== src/Scim/Sync/Laws.antt =====
-- A synchronisation accounts for every user that it is given.
use ssf_transmitter.Prelude.{
  ℕ, ◌+◌, ◌*◌, ◌≤◌, String, ◌≡◌, inl, inr, refl, Bool, true, false, Option, none, some, List, [],
  ◌∷◌, length, arith, Bool-cases, ◌==◌, nat_eq, ◌||◌,
}
use ssf_transmitter.Result.{Result, Result-cases, ok, err, http_failure}
use ssf_transmitter.Value.{Fields}
use ssf_transmitter.Environment.{Env}
use ssf_transmitter.Scim.Http.{Apple, Sent, Reply, response, call, lift, pure, ◌>>=◌}
use ssf_transmitter.Scim.Identity.{Indexes}
use ssf_transmitter.Scim.Run.{
  Run, no_result, SyncResult, request, sending, tally, record_username_conflict, caught,
}
use ssf_transmitter.Scim.Pages.{validate_users_page}
use ssf_transmitter.Scim.Preflight.{find_existing_users}
use ssf_transmitter.Scim.Reconcile.{reconcile_diffs}
use ssf_transmitter.Scim.Reconcile.Laws.{score, IsTally, ScimReply-cases, reconcile_diffs-IsTally}
use ssf_transmitter.Scim.Conflict.{
  query_username_filter, verified_filtered_user, first_resource, is_mismatched, recover_found,
  recover_listed, username_of, recover_payload, handle_409, is_zero_based, one_based, queried,
  username_request,
}
use ssf_transmitter.Scim.Sync.{
  create_request, count_accepted, verify_created_user, count_create, create_user, sync_user,
  sync_each, sync_existing, sync_users, match_apple_user, sync_matched, keep_going,
}

recover_found-IsTally :
    (e : Env) (apple : Apple) (user : Fields) (username : String) (found : Fields)
    (zero_based : Bool) (run : Run)
    → IsTally 1 2 1 (recover_found e apple user username found zero_based run) run
unfolding recover_found sending tally ◌>>=◌
recover_found-IsTally e apple user username found false run =
    reconcile_diffs-IsTally e apple found user true false run
recover_found-IsTally e apple user username found true run =
    elim (Result-cases (verified_filtered_user e apple username found user run.sent).0) [
      | inr (x, failed) ↦ inr (x, ground arith, ground arith, ground arith)
      | inl (none, nobody) ↦ inl (tt, ground arith, ground arith, ground arith)
      | inl (some verified, agreed) ↦
          elim (reconcile_diffs-IsTally e apple verified user true false
            (sending (verified_filtered_user e apple username found user) run).1) [
              | inl (unit, returned, low, high) ↦ inl (tt, ground arith, ground arith, ground arith)
              | inr (x, raised, low, high) ↦ inr (x, ground arith, ground arith, ground arith)
            ]
    ]

recover_listed-IsTally :
    (e : Env) (apple : Apple) (user : Fields) (username : String) (zero_based : Bool)
    (valid : Option (List Fields × ℕ)) (run : Run)
    → IsTally 1 2 1 (recover_listed e apple user username zero_based valid run) run
unfolding recover_listed record_username_conflict tally lift ◌>>=◌
recover_listed-IsTally e apple user username zero_based none run =
    inl (tt, refl, ground arith, ground arith)
recover_listed-IsTally e apple user username zero_based (some (resources, total)) run =
    elim (Bool-cases (total == 1)) [
      | inr other ↦ inl (tt, ground arith, ground arith, ground arith)
      | inl single ↦ elim (Result-cases (first_resource resources)) [
        | inr (x, failed) ↦ inr (x, ground arith, ground arith, ground arith)
        | inl (found, first) ↦ elim (Bool-cases (is_mismatched e username found)) [
          | inl mismatched ↦ inl (tt, ground arith, ground arith, ground arith)
          | inr matching ↦ elim (recover_found-IsTally e apple user username found zero_based run) [
            | inl (unit, returned, low, high) ↦ inl (tt, ground arith, ground arith, ground arith)
            | inr (x, raised, low, high) ↦ inr (x, ground arith, ground arith, ground arith)
          ]
        ]
      ]
    ]

recover_payload-IsTally :
    (e : Env) (apple : Apple) (user : Fields) (username : String) (payload : Option Fields)
    (run : Run)
    → IsTally 1 2 1 (recover_payload e apple user username payload run) run
unfolding recover_payload tally lift ◌>>=◌
recover_payload-IsTally e apple user username none run = inl (tt, refl, ground arith, ground arith)
recover_payload-IsTally e apple user username (some payload) run =
    elim (Result-cases (caught (validate_users_page (one_based payload) 1 none))) [
      | inr (x, failed) ↦ inr (x, ground arith, ground arith, ground arith)
      | inl (valid, validated) ↦
          elim (recover_listed-IsTally e apple user username (is_zero_based payload) valid run) [
            | inl (unit, returned, low, high) ↦ inl (tt, ground arith, ground arith, ground arith)
            | inr (x, raised, low, high) ↦ inr (x, ground arith, ground arith, ground arith)
          ]
    ]

handle_409-IsTally :
    (e : Env) (apple : Apple) (user : Fields) (run : Run)
    → IsTally 1 2 1 (handle_409 e apple user run) run
unfolding handle_409 query_username_filter sending call pure lift ◌>>=◌
handle_409-IsTally e apple user run = elim (Result-cases (username_of user)) [
  | inr (x, failed) ↦ inr (x, ground arith, ground arith, ground arith)
  | inl (username, named) ↦
      elim (recover_payload-IsTally e apple user username
        (queried (apple (username_request e username ∷ run.sent)))
        (sending (query_username_filter e apple username) run).1) [
          | inl (unit, returned, low, high) ↦ inl (tt, ground arith, ground arith, ground arith)
          | inr (x, raised, low, high) ↦ inr (x, ground arith, ground arith, ground arith)
        ]
]

count_accepted-IsTally :
    (e : Env) (apple : Apple) (user : Fields) (verify_identity : Bool) (answer : Reply) (run : Run)
    → IsTally 1 2 1 (count_accepted e apple user verify_identity answer run) run
unfolding count_accepted sending tally pure ◌>>=◌
count_accepted-IsTally e apple user false answer run = inl (tt, refl, ground arith, ground arith)
count_accepted-IsTally e apple user true answer run =
    elim (Result-cases (verify_created_user e apple user answer run.sent).0) [
      | inr (x, failed) ↦ inr (x, ground arith, ground arith, ground arith)
      | inl (verified, found) ↦ inl (tt, ground arith, ground arith, ground arith)
    ]

count_create-IsTally :
    (e : Env) (apple : Apple) (user : Fields) (verify_identity : Bool) (answer : Reply) (run : Run)
    → IsTally 1 2 1 (count_create e apple user verify_identity answer run) run
unfolding count_create tally
count_create-IsTally e apple user verify_identity (response status body) run =
    elim (Bool-cases (status == 200 || status == 201)) [
      | inl accepted ↦
          rw accepted
            (count_accepted-IsTally e apple user verify_identity (response status body) run)
      | inr other ↦ elim (Bool-cases (status == 409)) [
        | inl conflict ↦ rw (other, conflict) (handle_409-IsTally e apple user run)
        | inr refused ↦ rw (other, refused) (inl (tt, refl, ground arith, ground arith))
      ]
    ]

create_user-IsTally :
    (e : Env) (apple : Apple) (user : Fields) (verify_identity : Bool) (run : Run)
    → IsTally 1 2 1 (create_user e apple user verify_identity run) run
unfolding create_user request sending call lift ◌>>=◌
create_user-IsTally e apple user verify_identity run =
    elim (ScimReply-cases (apple (create_request user ∷ run.sent))) [
      | inr lost ↦ inr (http_failure, ground arith, ground arith, ground arith)
      | inl (status, body, replied_with) ↦
          elim (count_create-IsTally e apple user verify_identity (response status body)
            (sending (call apple (create_request user)) run).1) [
              | inl (unit, returned, low, high) ↦ inl (tt, ground arith, ground arith, ground arith)
              | inr (x, raised, low, high) ↦ inr (x, ground arith, ground arith, ground arith)
            ]
    ]

keep_going-IsTally :
    (r : Result (Unit {0}) × Run) (run : Run)
    → IsTally 1 2 1 r run
    → IsTally 1 2 1 (keep_going r) run
keep_going-IsTally (ok unit, after) run h = h
keep_going-IsTally (err http_failure, after) run (inl (unit, returned, low, high)) =
    absurd (ground arith)
keep_going-IsTally (err http_failure, after) run (inr (x, raised, low, high)) =
    inl (tt, refl, ground arith, ground arith)
keep_going-IsTally (err _, after) run h = h

sync_matched-IsTally :
    (e : Env) (apple : Apple) (user : Fields) (filtered : Bool)
    (found : Option Fields × Bool × Bool) (run : Run)
    → IsTally 1 2 1 (sync_matched e apple user filtered found run) run
unfolding record_username_conflict tally
sync_matched-IsTally e apple user filtered (found, recovered, true) run =
    inl (tt, refl, ground arith, ground arith)
sync_matched-IsTally e apple user filtered (none, recovered, false) run =
    keep_going-IsTally (create_user e apple user filtered run) run
      (create_user-IsTally e apple user filtered run)
sync_matched-IsTally e apple user filtered (some apple_user, recovered, false) run =
    keep_going-IsTally (reconcile_diffs e apple apple_user user recovered true run) run
      (reconcile_diffs-IsTally e apple apple_user user recovered true run)

sync_user-IsTally :
    (e : Env) (apple : Apple) (user : Fields) (filtered : Bool) (run : Run)
    → IsTally 1 2 1 (sync_user e apple user filtered run) run
unfolding sync_user
sync_user-IsTally e apple user filtered run =
    sync_matched-IsTally e apple user filtered (match_apple_user e user run.indexes) run

sync_each-score :
    (e : Env) (apple : Apple) (filtered : Bool) (users : List Fields) (run : Run)
    → (sync_each e apple filtered users run).0 ≡ ok tt
    → (length users + score run.result ≤ score (sync_each e apple filtered users run).1.result)
      × (score (sync_each e apple filtered users run).1.result
          ≤ 2 * length users + score run.result)
unfolding sync_each pure ◌>>=◌
sync_each-score e apple filtered [] run h = (ground arith, ground arith)
sync_each-score e apple filtered (user ∷ users) run h =
    elim (sync_user-IsTally e apple user filtered run) [
      | inr (x, raised, low, high) ↦ absurd (ground arith)
      | inl (unit, returned, low, high) ↦
          let rest =
            sync_each-score e apple filtered users (sync_user e apple user filtered run).1
              (ground arith) in
          (ground arith, ground arith)
    ]

sync_existing-score :
    (e : Env) (apple : Apple) (users : List Fields) (existing : Indexes × Bool) (sent : Sent)
    (result : SyncResult)
    → (sync_existing e apple users existing sent).0 ≡ ok result
    → (length users ≤ score result) × (score result ≤ 2 * length users)
unfolding sync_existing
sync_existing-score e apple users (ix, filtered) sent result h =
    let start : Run = record { sent = sent; result = no_result; indexes = ix } in
    elim (Result-cases (sync_each e apple filtered users start).0) [
      | inr (x, raised) ↦ absurd (ground arith)
      | inl (unit, returned) ↦
          let sums = sync_each-score e apple filtered users start returned in
          (ground arith, ground arith)
    ]

-- When a synchronisation returns, its counters of created, updated, unchanged, conflicting and
-- failed users add up to at least one for each source user, and to at most two.
pub sync_users-score :
    (e : Env) (apple : Apple) (users : List Fields) (sent : Sent) (result : SyncResult)
    → (sync_users e apple users sent).0 ≡ ok result
    → (length users ≤ score result) × (score result ≤ 2 * length users)
unfolding sync_users sync_existing lift ◌>>=◌
sync_users-score e apple users sent result h =
    elim (Result-cases (find_existing_users e apple users sent).0) [
      | inr (x, failed) ↦ absurd (ground arith)
      | inl ((ix, filtered), found) ↦
          sync_existing-score e apple users (ix, filtered)
            (find_existing_users e apple users sent).1 result (ground arith)
    ]
