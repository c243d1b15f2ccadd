-- ===== src/Scim/Reconcile/Target.antt =====
-- Where reconciling a user writes.
use ssf_transmitter.Prelude.{
  String, ◌≡◌, ◌⊎◌, inl, inr, refl, sym, subst, Bool, true, false, not, ◌&&◌, none, some, [], ◌∷◌,
  ◌==◌, string_eq, arith, eq_iff, Bool-cases,
}
use ssf_transmitter.Result.{Result-cases, ok}
use ssf_transmitter.Value.{Value, Fields, text, obj, get}
use ssf_transmitter.Environment.{Env}
use ssf_transmitter.Scim.Http.{
  get_, Apple, Sent, ScimReply, reply, no_reply, response, call, lift, pure, ◌>>=◌,
}
use ssf_transmitter.Scim.Identity.{id_of, same_id, user_url}
use ssf_transmitter.Scim.Diff.{
  Diffs, can_recover_by_username, field_diffs, actionable_diffs, any_diff, is_changed,
}
use ssf_transmitter.Scim.Update.{build_update_request}
use ssf_transmitter.Scim.Run.{Run, request, sending, tally, replace_user}
use ssf_transmitter.Scim.Reconcile.{
  is_updated, patch_user, verified_repair, external_id_patch, verify_repair, patch_external_id,
  update_fields, repair_and_update, reconcile_eligible, reconcile_diffs,
}
use ssf_transmitter.Scim.Reconcile.Laws.{
  ScimReply-cases, tagged, renewed, reconcile_diffs-reconcile_eligible, reconcile_diffs-refused,
}

-- Every request is to the URL.
unfoldable pub all_to : String → Sent → Bool
all_to url [] = true
all_to url (r ∷ sent) = r.url == url && all_to url sent

id_text : Value → String
id_text v = elim v [ text s ↦ s | _ ↦ "" ]

same_id-id_text : (x y : Value) → same_id x y ≡ true → id_text y ≡ id_text x
unfolding id_text
same_id-id_text (text s) (text t) h = ground (arith, eq_iff t s)
same_id-id_text (text s) _ h = absurd (ground arith)
same_id-id_text _ y h = absurd (ground arith)

verified_repair-id_of :
    (e : Env) (apple_user user verified : Fields) (answer : ScimReply)
    → verified_repair e apple_user user answer ≡ some verified
    → id_of verified ≡ id_of apple_user
unfolding verified_repair id_text
verified_repair-id_of e apple_user user verified no_reply h = absurd (ground arith)
verified_repair-id_of e apple_user user verified (reply status none) h = absurd (ground arith)
verified_repair-id_of e apple_user user verified (reply status (some (obj found))) h =
    elim (Bool-cases (same_id (get apple_user "id") (get found "id"))) [
      | inr other ↦ absurd (ground arith)
      | inl same ↦
          let confirmed : found ≡ verified = ground arith in
          subst (λ u. id_text (get u "id") ≡ id_text (get apple_user "id")) confirmed
            (same_id-id_text (get apple_user "id") (get found "id") same)
    ]
verified_repair-id_of e apple_user user verified (reply status (some _)) h = absurd (ground arith)

patch_user-all_to :
    (e : Env) (apple : Apple) (apple_user user : Fields) (diffs : Diffs) (run : Run)
    → all_to (user_url e (id_of apple_user)) run.sent ≡ true
    → all_to (user_url e (id_of apple_user)) (patch_user e apple apple_user user diffs run).1.sent
      ≡ true
unfolding patch_user request sending tally call lift ◌>>=◌ all_to
patch_user-all_to e apple apple_user user diffs run h =
    elim (Result-cases
      (build_update_request e user e.settings.apple_scim_update_mode (id_of apple_user) diffs)) [
        | inr (x, failed) ↦ ground arith
        | inl (update, built) ↦
            elim (ScimReply-cases (
              apple (
                record {
                  method = update.method;
                  url = user_url e (id_of apple_user);
                  body = some update.body;
                }
                ∷ run.sent))) [
                  | inr lost ↦ ground (
                    arith,
                    eq_iff (user_url e (id_of apple_user)) (user_url e (id_of apple_user)),
                  )
                  | inl (status, body, replied_with) ↦ ground (
                    arith,
                    eq_iff (user_url e (id_of apple_user)) (user_url e (id_of apple_user)),
                  )
                ]
      ]

update_fields-all_to :
    (e : Env) (apple : Apple) (apple_user user : Fields) (diffs : Diffs) (attempted : Bool)
    (run : Run)
    → all_to (user_url e (id_of apple_user)) run.sent ≡ true
    → all_to
        (user_url e (id_of apple_user))
        (update_fields e apple apple_user user diffs attempted run).1.sent
      ≡ true
unfolding update_fields tally pure ◌>>=◌
update_fields-all_to e apple apple_user user diffs attempted run h =
    let actionable = actionable_diffs diffs e.settings.apple_scim_update_mode in
    let later = tagged e diffs run in
    elim (Bool-cases (any_diff actionable)) [
      | inl some_diff ↦
          ground (arith, patch_user-all_to e apple apple_user user actionable later (ground arith))
      | inr no_diff ↦ ground arith
    ]

patch_external_id-all_to :
    (e : Env) (apple : Apple) (apple_user user : Fields) (run : Run)
    → all_to (user_url e (id_of apple_user)) run.sent ≡ true
    → all_to (user_url e (id_of apple_user)) (patch_external_id e apple apple_user user run).1.sent
      ≡ true
unfolding patch_external_id verify_repair request sending tally call pure lift ◌>>=◌ all_to
patch_external_id-all_to e apple apple_user user run h =
    let same = eq_iff (user_url e (id_of apple_user)) (user_url e (id_of apple_user)) in
    elim (ScimReply-cases (apple (external_id_patch e apple_user user ∷ run.sent))) [
      | inr lost ↦ ground (arith, same)
      | inl (status, body, replied_with) ↦ elim (Bool-cases (is_updated (response status body))) [
        | inr refused ↦ ground (arith, same)
        | inl accepted ↦ ground (arith, same)
      ]
    ]

patch_external_id-id_of :
    (e : Env) (apple : Apple) (apple_user user verified : Fields) (run : Run)
    → (patch_external_id e apple apple_user user run).0 ≡ ok (some verified)
    → id_of verified ≡ id_of apple_user
unfolding patch_external_id verify_repair request sending tally call pure lift ◌>>=◌
patch_external_id-id_of e apple apple_user user verified run h =
    elim (ScimReply-cases (apple (external_id_patch e apple_user user ∷ run.sent))) [
      | inr lost ↦ absurd (ground arith)
      | inl (status, body, replied_with) ↦ elim (Bool-cases (is_updated (response status body))) [
        | inr refused ↦ absurd (ground arith)
        | inl accepted ↦
            verified_repair-id_of e apple_user user verified
              (apple (
                record { method = get_; url = user_url e (id_of apple_user); body = none }
                ∷ external_id_patch e apple_user user
                ∷ run.sent))
              (ground arith)
      ]
    ]

sent-renewed :
    (apple_user verified : Fields) (is_indexed : Bool) (run : Run)
    → (renewed apple_user verified is_indexed run).sent ≡ run.sent
unfolding replace_user pure
sent-renewed apple_user verified is_indexed run = ground arith

repair_and_update-all_to :
    (e : Env) (apple : Apple) (apple_user user : Fields) (is_indexed : Bool) (run : Run)
    → all_to (user_url e (id_of apple_user)) run.sent ≡ true
    → all_to
        (user_url e (id_of apple_user))
        (repair_and_update e apple apple_user user is_indexed run).1.sent
      ≡ true
unfolding repair_and_update pure lift ◌>>=◌
repair_and_update-all_to e apple apple_user user is_indexed run h =
    let patched = patch_external_id-all_to e apple apple_user user run h in
    let repaired = (patch_external_id e apple apple_user user run).1 in
    elim (Result-cases (patch_external_id e apple apple_user user run).0) [
      | inr (x, failed) ↦ ground (arith, patched)
      | inl (none, refused) ↦ ground (arith, patched)
      | inl (some verified, returned) ↦
          let later = renewed apple_user verified is_indexed repaired in
          let same = patch_external_id-id_of e apple apple_user user verified run returned in
          let kept = sent-renewed apple_user verified is_indexed repaired in
          elim (Result-cases (field_diffs e verified user false)) [
            | inr (x, failed) ↦ ground (arith, patched, kept)
            | inl (diffs, compared) ↦
                let updated : all_to (user_url e (id_of apple_user))
                      (update_fields e apple verified user diffs true later).1.sent
                    ≡ true =
                  subst
                    (λ i.
                      all_to (user_url e i)
                        (update_fields e apple verified user diffs true later).1.sent
                      ≡ true)
                    same
                    (update_fields-all_to e apple verified user diffs true later (
                      subst (λ i. all_to (user_url e i) later.sent ≡ true) (sym same)
                        (subst (λ s. all_to (user_url e (id_of apple_user)) s ≡ true) (sym kept)
                          patched))) in
                ground (arith, updated)
          ]
    ]

reconcile_eligible-all_to :
    (e : Env) (apple : Apple) (apple_user user : Fields) (recovered is_indexed : Bool) (run : Run)
    → all_to (user_url e (id_of apple_user)) run.sent ≡ true
    → all_to
        (user_url e (id_of apple_user))
        (reconcile_eligible e apple apple_user user recovered is_indexed run).1.sent
      ≡ true
unfolding reconcile_eligible lift ◌>>=◌
reconcile_eligible-all_to e apple apple_user user recovered is_indexed run h =
    elim (Result-cases (field_diffs e apple_user user true)) [
      | inr (x, failed) ↦ ground arith
      | inl (diffs, compared) ↦ elim (Bool-cases (recovered && is_changed diffs "externalId")) [
        | inl repair ↦
            ground (arith, repair_and_update-all_to e apple apple_user user is_indexed run h)
        | inr update ↦
            ground (arith, update_fields-all_to e apple apple_user user diffs false run h)
      ]
    ]

-- When a user is reconciled with an account of Apple's, every request goes to the URL of that account,
-- and when the account was found by its userName, either it may be recovered for the user or nothing
-- is sent.
pub reconcile_diffs-all_to :
    (e : Env) (apple : Apple) (apple_user user : Fields) (recovered is_indexed : Bool) (run : Run)
    → all_to (user_url e (id_of apple_user)) run.sent ≡ true
    → (all_to
          (user_url e (id_of apple_user))
          (reconcile_diffs e apple apple_user user recovered is_indexed run).1.sent
        ≡ true)
      × ((recovered && not (can_recover_by_username e apple_user (get user "externalId"))) ≡ false
          ⊎ (reconcile_diffs e apple apple_user user recovered is_indexed run).1.sent ≡ run.sent)
unfolding tally
reconcile_diffs-all_to e apple apple_user user false is_indexed run h =
    let same =
      reconcile_diffs-reconcile_eligible e apple apple_user user false is_indexed run refl in
    (
      subst (λ r. all_to (user_url e (id_of apple_user)) r.1.sent ≡ true) (sym same)
          (reconcile_eligible-all_to e apple apple_user user false is_indexed run h),
      inl refl,
    )
reconcile_diffs-all_to e apple apple_user user true is_indexed run h =
    elim (Bool-cases (can_recover_by_username e apple_user (get user "externalId"))) [
      | inl eligible ↦
          let same =
            reconcile_diffs-reconcile_eligible e apple apple_user user true is_indexed run
              (ground arith) in
          (
            subst (λ r. all_to (user_url e (id_of apple_user)) r.1.sent ≡ true) (sym same)
                (reconcile_eligible-all_to e apple apple_user user true is_indexed run h),
            inl (ground arith),
          )
      | inr refused ↦
          let same = reconcile_diffs-refused e apple apple_user user is_indexed run refused in
          (
            subst (λ r. all_to (user_url e (id_of apple_user)) r.1.sent ≡ true) (sym same) h,
            inr (subst (λ r. r.1.sent ≡ run.sent) (sym same) refl),
          )
    ]
