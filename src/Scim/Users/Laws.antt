-- ===== src/Scim/Users/Laws.antt =====
-- More fuel does not change a fetch that ended.
use ssf_transmitter.Prelude.{
  ℕ, zero, suc, String, ◌≡◌, ◌≢◌, inl, inr, refl, sym, ap, ◌∙◌, ◌∷◌, none, some, arith,
}
use ssf_transmitter.Result.{Result-cases, ok}
use ssf_transmitter.Value.{Items, Fields, arr, nil, get, get_or}
use ssf_transmitter.Scim.Http.{lift, pure, ◌>>=◌}
use ssf_transmitter.Scim.Users.{
  Asked, Authentik, ask, page_of, results_of, next_of, extend, unfinished, fetch_all_users,
}

-- A page with another behind it.
fetch_all_users-step :
    (authentik : Authentik) (fuel : ℕ) (url url' : String) (all_users results : Items)
    (asked : Asked) (found : Fields)
    → page_of (authentik (url ∷ asked)) ≡ ok (some found)
    → results_of (get_or found "results" (arr nil)) ≡ ok results
    → next_of (get found "next") ≡ ok (some url')
    → fetch_all_users authentik (suc fuel) url all_users asked
      ≡ fetch_all_users authentik fuel url' (extend all_users results) (url ∷ asked)
unfolding fetch_all_users ask lift pure ◌>>=◌
fetch_all_users-step authentik fuel url url' all_users results asked found read listed more =
    rw (read, listed, more) refl

-- A fetch that did not run out of fuel is the same with one unit more.
pub fetch_all_users-suc :
    (authentik : Authentik) (fuel : ℕ) (url : String) (all_users : Items) (asked : Asked)
    → (fetch_all_users authentik fuel url all_users asked).0 ≢ ok unfinished
    → fetch_all_users authentik (suc fuel) url all_users asked
      ≡ fetch_all_users authentik fuel url all_users asked
unfolding fetch_all_users ask lift pure ◌>>=◌
fetch_all_users-suc authentik zero url all_users asked ended = absurd (ended refl)
fetch_all_users-suc authentik (suc fuel) url all_users asked ended =
    elim (Result-cases (page_of (authentik (url ∷ asked)))) [
      | inr (x, failed) ↦ ground arith
      | inl (none, failed) ↦ ground arith
      | inl (some found, read) ↦
          elim (Result-cases (results_of (get_or found "results" (arr nil)))) [
            | inr (x, failed) ↦ ground arith
            | inl (results, listed) ↦ elim (Result-cases (next_of (get found "next"))) [
              | inr (x, failed) ↦ ground arith
              | inl (none, last) ↦ ground arith
              | inl (some url', more) ↦
                  let rest = extend all_users results in
                  let longer =
                    fetch_all_users-step authentik (suc fuel) url url' all_users results asked found
                      read listed more in
                  let shorter =
                    fetch_all_users-step authentik fuel url url' all_users results asked found read
                      listed more in
                  let same =
                    fetch_all_users-suc authentik fuel url' rest (url ∷ asked)
                      (λ h. ended (ap (λ r. r.0) shorter ∙ h)) in
                  longer ∙ same ∙ sym shorter
            ]
          ]
    ]
