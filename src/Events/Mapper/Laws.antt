-- ===== src/Events/Mapper/Laws.antt =====
-- What the mapping of `app/events/mapper.py` promises its callers.
use mathlib.Core.Bool.{true≢false}
use ssf_transmitter.Prelude.{
  ◌≢◌, sym, ◌∙◌, ap, refl, Bool-cases, inl, inr, strip-strip, ℕ, String, ◌≡◌, ◌⊎◌, true, false,
  none, some, [], ◌∷◌, arith, truthy, strip, eq_iff,
}
use ssf_transmitter.Value.{Value, Fields, text, bytes, get, is_text, contains}
use ssf_transmitter.Environment.{Env}
use ssf_transmitter.Events.Mapper.{
  extract_body, nested_dict, extract_action, extract_source_txn, changed_fields,
  session_revoked_event, credential_change_event, map_authentik_event, extract_email, email_of,
  non_empty,
}

abbrev pub IsLogout : Fields → Type 0
IsLogout payload = extract_action payload ≡ text "authentik.core.auth.logout"

abbrev pub IsPasswordChange : Fields → Type 0
IsPasswordChange payload =
    (extract_action payload ≡ text "authentik.core.user.write")
    × (contains (changed_fields (nested_dict (extract_body payload) "context")) "password" ≡ true)

eq_of_is_text : (v : Value) (s : String) → is_text v s ≡ true → v ≡ text s
eq_of_is_text (text t) s h = ground (arith, eq_iff t s)
eq_of_is_text _ s h = cc

is_text_self : (s : String) → is_text (text s) s ≡ true
is_text_self s = (eq_iff s s).1 refl

-- A test on the action decides it.
dec_action :
    (v : Value) (s : String)
    → ((v ≡ text s) × (is_text v s ≡ true)) ⊎ ((v ≢ text s) × (is_text v s ≡ false))
dec_action v s = elim (Bool-cases (is_text v s)) [
  | inl hit ↦ inl (eq_of_is_text v s hit, hit)
  | inr miss ↦
      inr (λ h. true≢false (sym (is_text_self s) ∙ ap (λ w. is_text w s) (sym h) ∙ miss), miss)
]

-- What an address is read from: a text, or bytes that decode to one.
email_cases :
    (e : Env) (v : Value)
    → ((raw : String) × (email_of e v ≡ non_empty (strip raw))) ⊎ (email_of e v ≡ none)
unfolding email_of
email_cases e (text raw) = inl (raw, refl)
email_cases e (bytes raw) = inl (e.decode raw, refl)
email_cases e _ = inr refl

module _ (e : Env) (now : ℕ) (payload : Fields) where
  -- The mapping is total and has three outcomes: a logout is one session-revoked event, a user
  -- write that lists "password" among the changed fields is one credential-change event, both under
  -- the webhook's transaction id, and any other payload, whatever its shape, is no event.
  pub map_authentik_event_cases :
      (IsLogout payload
        × (map_authentik_event e now payload
            ≡ session_revoked_event now (extract_source_txn e payload) ∷ []))
      ⊎ (IsPasswordChange payload
          × (map_authentik_event e now payload
              ≡ credential_change_event now (extract_source_txn e payload) ∷ []))
      ⊎ ((¬ IsLogout payload)
          × (¬ IsPasswordChange payload)
          × (map_authentik_event e now payload ≡ []))
  unfolding map_authentik_event extract_action
  map_authentik_event_cases =
      elim (dec_action (get (extract_body payload) "action") "authentik.core.auth.logout") [
        | inl (logout, hit) ↦ inl (logout, ground arith)
        | inr (other, miss) ↦
            elim (dec_action (get (extract_body payload) "action") "authentik.core.user.write") [
              | inr (no_write, miss') ↦ inr (inr (other, λ h. no_write h.0, ground arith))
              | inl (write, hit) ↦
                  elim (Bool-cases (
                    contains (changed_fields (nested_dict (extract_body payload) "context"))
                      "password")) [
                        | inl changed ↦ inr (inl ((write, changed), ground arith))
                        | inr kept ↦
                            inr (inr (other, λ h. true≢false (sym h.1 ∙ kept), ground arith))
                      ]
            ]
      ]

-- An address that is found is not empty and has no space at either end.
pub extract_email_normalized :
    (e : Env) (payload : Fields) {email : String}
    → extract_email e payload ≡ some email
    → (truthy email ≡ true) × (strip email ≡ email)
unfolding extract_email
extract_email_normalized e payload h =
    elim (email_cases e (get (nested_dict (extract_body payload) "user") "email")) [
      | inl (raw, found) ↦ ground (arith, strip-strip raw)
      | inr missing ↦ absurd (ground arith)
    ]
