-- ===== src/Routes/Root/Laws.antt =====
-- What the pages can hold of a request.
use Prim.Native.Char.{Char, code}
use Prim.Native.String.{String, [], ◌∷◌, ◌++◌}
use ssf_transmitter.Prelude.{
  ℕ, ◌≡◌, ◌⊎◌, inl, inr, refl, Bool, true, false, ◌||◌, ◌==◌, nat_eq, any_char, any_char-append,
  arith, Bool-cases,
}
use ssf_transmitter.Value.{Value, Fields, field, end}
use ssf_transmitter.Main.Headers.{HttpRequest}
use ssf_transmitter.Routes.Root.{
  escaped, escape, wants_html, is_unmatched_route, not_found_start, not_found_end, not_found_html,
  not_found_payload, page, json, http_exception_handler,
}

-- A character that ends a text or an attribute: one of `<`, `>` and the two quotes.
abbrev pub is_markup : ℕ → Bool
is_markup c = c == 60 || c == 62 || c == 34 || c == 39

escaped_clean : (c : Char) → any_char is_markup (escaped c) ≡ false
unfolding any_char
escaped_clean c = elim (Bool-cases (code c == 38)) [
  | inl ampersand ↦ rw ampersand refl
  | inr not_ampersand ↦ elim (Bool-cases (code c == 60)) [
    | inl less ↦ rw (not_ampersand, less) refl
    | inr not_less ↦ elim (Bool-cases (code c == 62)) [
      | inl greater ↦ rw (not_ampersand, not_less, greater) refl
      | inr not_greater ↦ elim (Bool-cases (code c == 34)) [
        | inl quote ↦ rw (not_ampersand, not_less, not_greater, quote) refl
        | inr not_quote ↦ elim (Bool-cases (code c == 39)) [
          | inl single ↦ rw (not_ampersand, not_less, not_greater, not_quote, single) refl
          | inr other ↦
              rw (not_ampersand, not_less, not_greater, not_quote, other, any_char)
                (rw (not_less, not_greater, not_quote, other) refl)
        ]
      ]
    ]
  ]
]

pub escape_clean : (s : String) → any_char is_markup (escape s) ≡ false
unfolding escape any_char
escape_clean [] = refl
escape_clean (c ∷ s) =
    let joined = any_char-append is_markup (escaped c) (escape s) in
    ground (arith, escaped_clean c, escape_clean s)

-- A page that answers an exception has status 404 and is the same for all paths but for the escaped
-- path, which has no character that ends a text or an attribute; the others are answered with JSON.
pub http_exception_handler_cases :
    (request : HttpRequest) (status_code : ℕ) (detail : Value)
    → ((safe : String) × (http_exception_handler request status_code detail
          ≡ page 404 (not_found_start ++ (safe ++ not_found_end)))
        × (any_char is_markup safe ≡ false)
        × (safe ≡ escape request.path)
        × (is_unmatched_route status_code detail ≡ true)
        × (wants_html request ≡ true))
      ⊎ ((status : ℕ) × (body : Fields) × (http_exception_handler request status_code detail
            ≡ json status body)
          × (status ≡ status_code))
unfolding http_exception_handler not_found_html
http_exception_handler_cases request status_code detail =
    elim (Bool-cases (is_unmatched_route status_code detail)) [
      | inr raised ↦ inr (status_code, field "detail" detail end, rw raised refl, refl)
      | inl unmatched ↦ elim (Bool-cases (wants_html request)) [
        | inr plain ↦
            inr (404, not_found_payload request.path, rw (unmatched, plain) refl, ground arith)
        | inl html ↦ inl (
          escape request.path,
          rw (unmatched, html) refl,
          escape_clean request.path,
          refl,
          unmatched,
          html,
        )
      ]
    ]
