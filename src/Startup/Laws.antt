-- ===== src/Startup/Laws.antt =====
-- What a start guarantees.
use ssf_transmitter.Prelude.{
  ℕ, String, ◌≡◌, ◌≢◌, ◌⊎◌, inl, inr, refl, sym, ap, ◌≤◌, Bool, true, false, not, ◌&&◌, ◌||◌,
  Option, List, [], ◌∷◌, ◌==◌, string_eq, arith, eq_iff, Bool-cases, truthy, text_or_empty,
  text_length, all, elem, map,
}
use ssf_transmitter.Result.{Error, Result-cases, ok, err, http, token_undecryptable}
use ssf_transmitter.Environment.{Env}
use ssf_transmitter.Crypto.{decrypt_token}
use ssf_transmitter.Database.{StreamRow, Db}
use ssf_transmitter.Routes.Webhook.{Request, authenticate_webhook}
use ssf_transmitter.Startup.{
  Disk, Sqlite, run_preflight_checks, check_webhook_auth, check_management_token, pause,
  pause_found, is_undecryptable, undecryptable_streams, quarantine_undecryptable_receiver_tokens,
}

-- When the checks before the start pass, no webhook is answered with the error of an invalid
-- configuration, and the management token and, in the mode of bearer tokens, the webhook token are
-- at least 32 characters long.
pub run_preflight_checks-configures :
    (e : Env) (disk : Disk) (rows : Option (List StreamRow)) (request : Request) (raw_body : List ℕ)
    → run_preflight_checks e disk rows ≡ true
    → (authenticate_webhook e request raw_body
        ≢ err (http 500 "Invalid webhook auth configuration"))
      × (32 ≤ text_length e.settings.ssf_management_token)
      × ((e.settings.ssf_webhook_auth_mode == "bearer") ≡ false
          ⊎ 32 ≤ text_length (text_or_empty e.settings.ssf_webhook_token))
unfolding run_preflight_checks check_webhook_auth check_management_token authenticate_webhook
run_preflight_checks-configures e disk rows request raw_body h = (
  λ invalid. absurd (ground arith),
  ground arith,
  elim (Bool-cases (e.settings.ssf_webhook_auth_mode == "bearer")) [
    | inl bearer ↦ inr (ground arith)
    | inr other ↦ inl other
  ],
)

-- Decryption raises nothing but TokenDecryptionError.
decrypt_token-error :
    (e : Env) (token : String) (x : Error) → decrypt_token e token ≡ err x → x ≡ token_undecryptable
unfolding decrypt_token
decrypt_token-error e token x h = ground arith

is_undecryptable-returns :
    (e : Env) (token : String) → (b : Bool) × (is_undecryptable e token ≡ ok b)
unfolding is_undecryptable
is_undecryptable-returns e token = elim (Bool-cases (truthy token)) [
  | inr empty ↦ (false, ground arith)
  | inl some_token ↦ elim (Result-cases (decrypt_token e token)) [
    | inl (plaintext, opened) ↦ (false, ground arith)
    | inr (x, failed) ↦ (true, ground (arith, decrypt_token-error e token x failed))
  ]
]

-- The stored token of the row is refused.
abbrev pub is_bad : Env → StreamRow → Bool
is_bad e row = elim (is_undecryptable e row.endpoint_token) [ ok b ↦ b | err x ↦ false ]

-- The row is not enabled, or its token can be decrypted.
abbrev pub is_deliverable : Env → StreamRow → Bool
is_deliverable e row = not (row.status == "enabled") || not (is_bad e row)

abbrev covers : Env → List String → List StreamRow → Bool
covers e ids rows = all (λ row. not (is_bad e row) || elem row.stream_id ids) rows

covers-cons :
    (e : Env) (id : String) (ids : List String) (rows : List StreamRow)
    → covers e ids rows ≡ true
    → covers e (id ∷ ids) rows ≡ true
covers-cons e id ids [] h = refl
covers-cons e id ids (row ∷ rows) h = ground (arith, covers-cons e id ids rows)

undecryptable_streams-covers :
    (e : Env) (rows : List StreamRow)
    → (ids : List String) × (undecryptable_streams e rows ≡ ok ids) × (covers e ids rows ≡ true)
unfolding undecryptable_streams
undecryptable_streams-covers e [] = ([], refl, refl)
undecryptable_streams-covers e (row ∷ rows) =
    let rest = undecryptable_streams-covers e rows in
    let found = is_undecryptable-returns e row.endpoint_token in
    elim (Bool-cases found.0) [
      | inl bad ↦ (
        row.stream_id ∷ rest.0,
        ground (arith, rest.1, found.1),
        ground (
          arith,
          rest.2,
          found.1,
          eq_iff row.stream_id row.stream_id,
          covers-cons e row.stream_id rest.0 rows,
        ),
      )
      | inr good ↦ (rest.0, ground (arith, rest.1, found.1), ground (arith, rest.2, found.1))
    ]

all-is_deliverable :
    (e : Env) (ids : List String) (rows : List StreamRow)
    → covers e ids rows ≡ true
    → all (is_deliverable e) (map (pause ids) rows) ≡ true
all-is_deliverable e ids [] h = refl
all-is_deliverable e ids (row ∷ rows) h =
    let rest = all-is_deliverable e ids rows (ground arith) in
    elim (Bool-cases (elem row.stream_id ids)) [
      | inl paused ↦ rw (paused, all, rest) refl
      | inr kept ↦
          let good : is_bad e row ≡ false = ground arith in
          let deliverable : is_deliverable e row ≡ true = ground (arith, good) in
          rw (kept, all, deliverable, rest) refl
    ]

-- Nothing to pause is nothing to change.
pause_none : (rows : List StreamRow) → map (pause []) rows ≡ rows
pause_none [] = refl
pause_none (row ∷ rows) = ap (λ rest. row ∷ rest) (pause_none rows)

pause_found-writes :
    (sqlite : Sqlite) (db : Db) (ids : List String)
    → sqlite.writes ≡ true
    → pause_found sqlite db (ok ids) ≡ record db { streams = map (pause ids) db.streams }
pause_found-writes sqlite db [] h =
    ap (λ (rows : List StreamRow). record db { streams = rows }) (sym (pause_none db.streams))
pause_found-writes sqlite db (id ∷ ids) h = rw h refl

pause_found-fails :
    (sqlite : Sqlite) (db : Db) (ids : List String)
    → sqlite.writes ≡ false
    → pause_found sqlite db (ok ids) ≡ db
pause_found-fails sqlite db [] h = refl
pause_found-fails sqlite db (id ∷ ids) h = rw h refl

-- The check of the stored tokens at the start either cannot read the rows or cannot write them, and
-- leaves the tables as they are, or it leaves every stream paused whose token is refused, so that each
-- enabled one can be delivered to.
pub quarantine_undecryptable_receiver_tokens_cases :
    (e : Env) (sqlite : Sqlite) (db : Db)
    → (((sqlite.reads && sqlite.writes) ≡ false)
        × (quarantine_undecryptable_receiver_tokens e sqlite db ≡ db))
      ⊎ (all (is_deliverable e) (quarantine_undecryptable_receiver_tokens e sqlite db).streams
          ≡ true)
unfolding quarantine_undecryptable_receiver_tokens
quarantine_undecryptable_receiver_tokens_cases e sqlite db = elim (Bool-cases sqlite.reads) [
  | inr unread ↦ inl (ground arith, rw unread refl)
  | inl read ↦
      let (ids, found, covered) = undecryptable_streams-covers e db.streams in
      elim (Bool-cases sqlite.writes) [
        | inr refused ↦
            inl (ground arith, rw (read, found) (pause_found-fails sqlite db ids refused))
        | inl written ↦ inr (
            rw (read, found, pause_found-writes sqlite db ids written)
              (all-is_deliverable e ids db.streams covered))
      ]
]
