-- ===== src/Scim/Reconcile/Laws.antt =====
-- What reconciling a user adds to the counters.
use ssf_transmitter.Prelude.{
  ℕ, ◌+◌, ◌≤◌, ◌≡◌, ◌⊎◌, inl, inr, refl, sym, subst, Bool, true, false, Option, none, some, arith,
  Bool-cases, Option-cases, if◌then◌else◌, ◌∷◌, ◌&&◌, not,
}
use ssf_transmitter.Result.{Error, Result, Result-cases, ok, err, http_failure}
use ssf_transmitter.Value.{Value, Fields, get}
use ssf_transmitter.Environment.{Env}
use ssf_transmitter.Scim.Http.{
  get_, Apple, response, ScimReply, reply, no_reply, call, lift, pure, ◌>>=◌,
}
use ssf_transmitter.Scim.Identity.{id_of, user_url}
use ssf_transmitter.Scim.Diff.{
  Diffs, field_diffs, actionable_diffs, any_diff, any_other, keys_of, is_changed,
  can_recover_by_username,
}
use ssf_transmitter.Scim.Update.{build_update_request}
use ssf_transmitter.Scim.Run.{
  Run, SyncResult, request, sending, tally, record_username_conflict, replace_user,
  count_out_of_scope,
}
use ssf_transmitter.Scim.Reconcile.{
  is_updated, patch_user, verified_repair, external_id_patch, verify_repair, patch_external_id,
  username_recovery_allowed, update_fields, repair_and_update, reconcile_eligible, reconcile_diffs,
}

-- The outcomes that are counted.
abbrev pub score : SyncResult → ℕ
score r = r.created + r.updated + r.unchanged + r.conflicts + r.errors

-- An action that returned has added between `low` and `high`; one that raised, at most `more`.
abbrev pub IsTally {ℓ} : {A : Type ℓ} → ℕ → ℕ → ℕ → Result A × Run → Run → Type ℓ
IsTally {A = A} low high more after before =
    ((a : A) × (after.0 ≡ ok a)
      × (low + score before.result ≤ score after.1.result)
      × (score after.1.result ≤ high + score before.result))
    ⊎ ((x : Error) × (after.0 ≡ err x)
        × (score before.result ≤ score after.1.result)
        × (score after.1.result ≤ more + score before.result))

pub ScimReply-cases :
    (answer : ScimReply)
    → ((status : ℕ) × (body : Option Value) × (answer ≡ reply status body)) ⊎ (answer ≡ no_reply)
ScimReply-cases (reply status body) = inl (status, body, refl)
ScimReply-cases no_reply = inr refl

patch_user-IsTally :
    (e : Env) (apple : Apple) (apple_user user : Fields) (diffs : Diffs) (run : Run)
    → IsTally 1 1 0 (patch_user e apple apple_user user diffs run) run
unfolding patch_user request sending tally call lift ◌>>=◌
patch_user-IsTally e apple apple_user user diffs run =
    elim (Result-cases
      (build_update_request e user e.settings.apple_scim_update_mode (id_of apple_user) diffs)) [
        | inr (x, failed) ↦ inr (x, ground arith, ground arith, ground arith)
        | inl (update, built) ↦
            elim (ScimReply-cases (
              apple (
                record {
                  method = update.method;
                  url = user_url e (id_of apple_user);
                  body = some update.body;
                }
                ∷ run.sent))) [
                  | inr lost ↦ inr (http_failure, ground arith, ground arith, ground arith)
                  | inl (status, body, replied_with) ↦
                      inl (tt, ground arith, ground arith, ground arith)
                ]
      ]

patch_external_id-IsTally :
    (e : Env) (apple : Apple) (apple_user user : Fields) (run : Run)
    → IsTally 1 1 0 (patch_external_id e apple apple_user user run) run
unfolding patch_external_id verify_repair request sending tally call pure lift ◌>>=◌
patch_external_id-IsTally e apple apple_user user run =
    elim (ScimReply-cases (apple (external_id_patch e apple_user user ∷ run.sent))) [
      | inr lost ↦ inr (http_failure, ground arith, ground arith, ground arith)
      | inl (status, body, replied_with) ↦ elim (Bool-cases (is_updated (response status body))) [
        | inr refused ↦ inl (none, ground arith, ground arith, ground arith)
        | inl accepted ↦
            let answer = apple (
              record { method = get_; url = user_url e (id_of apple_user); body = none }
              ∷ external_id_patch e apple_user user
              ∷ run.sent) in
            elim (Option-cases (verified_repair e apple_user user answer)) [
              | inl unverified ↦ inl (none, ground arith, ground arith, ground arith)
              | inr (verified, confirmed) ↦
                  inl (some verified, ground arith, ground arith, ground arith)
            ]
      ]
    ]

abbrev least : Bool → ℕ
least attempted = if attempted then 0 else 1

-- The run behind the count of a difference that is out of scope.
abbrev pub tagged : Env → Diffs → Run → Run
tagged e diffs run =
    (tally
      (if any_other (keys_of (actionable_diffs diffs e.settings.apple_scim_update_mode)) diffs
        then count_out_of_scope
        else λ r. r)
      run).1

score-tagged :
    (e : Env) (diffs : Diffs) (run : Run) → score (tagged e diffs run).result ≡ score run.result
unfolding tally
score-tagged e diffs run = ground arith

update_fields-IsTally :
    (e : Env) (apple : Apple) (apple_user user : Fields) (diffs : Diffs) (attempted : Bool)
    (run : Run)
    → IsTally (least attempted) 1 0 (update_fields e apple apple_user user diffs attempted run) run
unfolding update_fields tally pure ◌>>=◌
update_fields-IsTally e apple apple_user user diffs attempted run =
    let same = score-tagged e diffs run in
    let actionable = actionable_diffs diffs e.settings.apple_scim_update_mode in
    elim (Bool-cases (any_diff actionable)) [
      | inl some_diff ↦
          elim (patch_user-IsTally e apple apple_user user actionable (tagged e diffs run)) [
            | inl (unit, returned, low, high) ↦
                inl (tt, ground arith, ground (arith), ground (arith))
            | inr (x, raised, low, high) ↦ inr (x, ground arith, ground (arith), ground (arith))
          ]
      | inr no_diff ↦ inl (tt, ground arith, ground (arith), ground (arith))
    ]

-- The run behind the change of the indexed user.
abbrev pub renewed : Fields → Fields → Bool → Run → Run
renewed apple_user verified is_indexed run =
    ((if is_indexed then replace_user (id_of apple_user) verified else pure tt) run).1

score-renewed :
    (apple_user verified : Fields) (is_indexed : Bool) (run : Run)
    → score (renewed apple_user verified is_indexed run).result ≡ score run.result
unfolding replace_user pure
score-renewed apple_user verified is_indexed run = ground arith

repair_and_update-IsTally :
    (e : Env) (apple : Apple) (apple_user user : Fields) (is_indexed : Bool) (run : Run)
    → IsTally 1 2 1 (repair_and_update e apple apple_user user is_indexed run) run
unfolding repair_and_update replace_user pure lift ◌>>=◌
repair_and_update-IsTally e apple apple_user user is_indexed run =
    elim (patch_external_id-IsTally e apple apple_user user run) [
      | inr (x, raised, low, high) ↦ inr (x, ground arith, ground arith, ground arith)
      | inl (none, returned, low, high) ↦ inl (tt, ground arith, ground arith, ground arith)
      | inl (some verified, returned, low, high) ↦
          let repaired = (patch_external_id e apple apple_user user run).1 in
          let later = renewed apple_user verified is_indexed repaired in
          let same = score-renewed apple_user verified is_indexed repaired in
          elim (Result-cases (field_diffs e verified user false)) [
            | inr (x, failed) ↦ inr (x, ground arith, ground arith, ground arith)
            | inl (diffs, compared) ↦
                elim (update_fields-IsTally e apple verified user diffs true later) [
                  | inl (unit, updated, low', high') ↦
                      inl (tt, ground arith, ground arith, ground arith)
                  | inr (x, raised, low', high') ↦ inr (x, ground arith, ground arith, ground arith)
                ]
          ]
    ]

reconcile_eligible-IsTally :
    (e : Env) (apple : Apple) (apple_user user : Fields) (recovered is_indexed : Bool) (run : Run)
    → IsTally 1 2 1 (reconcile_eligible e apple apple_user user recovered is_indexed run) run
unfolding reconcile_eligible lift ◌>>=◌
reconcile_eligible-IsTally e apple apple_user user recovered is_indexed run =
    elim (Result-cases (field_diffs e apple_user user true)) [
      | inr (x, failed) ↦ inr (x, ground arith, ground arith, ground arith)
      | inl (diffs, compared) ↦ elim (Bool-cases (recovered && is_changed diffs "externalId")) [
        | inl repair ↦ elim (repair_and_update-IsTally e apple apple_user user is_indexed run) [
          | inl (unit, returned, low, high) ↦ inl (tt, ground arith, ground arith, ground arith)
          | inr (x, raised, low, high) ↦ inr (x, ground arith, ground arith, ground arith)
        ]
        | inr update ↦ elim (update_fields-IsTally e apple apple_user user diffs false run) [
          | inl (unit, returned, low, high) ↦ inl (tt, ground arith, ground arith, ground arith)
          | inr (x, raised, low, high) ↦ inr (x, ground arith, ground arith, ground arith)
        ]
      ]
    ]

pub reconcile_diffs-reconcile_eligible :
    (e : Env) (apple : Apple) (apple_user user : Fields) (recovered is_indexed : Bool) (run : Run)
    → (recovered && not (can_recover_by_username e apple_user (get user "externalId"))) ≡ false
    → reconcile_diffs e apple apple_user user recovered is_indexed run
      ≡ reconcile_eligible e apple apple_user user recovered is_indexed run
unfolding reconcile_diffs username_recovery_allowed pure ◌>>=◌
reconcile_diffs-reconcile_eligible e apple apple_user user false is_indexed run h = refl
reconcile_diffs-reconcile_eligible e apple apple_user user true is_indexed run h =
    elim (Bool-cases (can_recover_by_username e apple_user (get user "externalId"))) [
      | inl eligible ↦ rw eligible refl
      | inr refused ↦ absurd (ground arith)
    ]

-- A user that may not be recovered is a conflict, and nothing is sent.
pub reconcile_diffs-refused :
    (e : Env) (apple : Apple) (apple_user user : Fields) (is_indexed : Bool) (run : Run)
    → can_recover_by_username e apple_user (get user "externalId") ≡ false
    → reconcile_diffs e apple apple_user user true is_indexed run
      ≡ tally (record_username_conflict user) run
unfolding reconcile_diffs username_recovery_allowed tally pure ◌>>=◌
reconcile_diffs-refused e apple apple_user user is_indexed run h = rw h refl

pub reconcile_diffs-IsTally :
    (e : Env) (apple : Apple) (apple_user user : Fields) (recovered is_indexed : Bool) (run : Run)
    → IsTally 1 2 1 (reconcile_diffs e apple apple_user user recovered is_indexed run) run
unfolding record_username_conflict tally
reconcile_diffs-IsTally e apple apple_user user false is_indexed run =
    subst (λ r. IsTally 1 2 1 r run)
      (sym (reconcile_diffs-reconcile_eligible e apple apple_user user false is_indexed run refl))
      (reconcile_eligible-IsTally e apple apple_user user false is_indexed run)
reconcile_diffs-IsTally e apple apple_user user true is_indexed run =
    elim (Bool-cases (can_recover_by_username e apple_user (get user "externalId"))) [
      | inl eligible ↦
          subst (λ r. IsTally 1 2 1 r run)
            (sym (
              reconcile_diffs-reconcile_eligible e apple apple_user user true is_indexed run
                (ground arith)))
            (reconcile_eligible-IsTally e apple apple_user user true is_indexed run)
      | inr refused ↦
          subst (λ r. IsTally 1 2 1 r run)
            (sym (reconcile_diffs-refused e apple apple_user user is_indexed run refused))
            (inl (tt, refl, ground arith, ground arith))
    ]
