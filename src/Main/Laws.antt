-- ===== src/Main/Laws.antt =====
-- What a started process and its answers guarantee.
use ssf_transmitter.Prelude.{
  ℕ, ◌≡◌, ◌≢◌, ◌⊎◌, ◌∙◌, sym, ap, subst, inl, inr, refl, true, false, ◌&&◌, Option, none, some,
  List, all, arith, Bool-cases, truthy,
}
use ssf_transmitter.Result.{Result-cases, ok, err, http}
use ssf_transmitter.Environment.{Env}
use ssf_transmitter.Crypto.Set.{load_signing_material}
use ssf_transmitter.Crypto.Keys.{
  KeyFiles, key_id, ensure_keys, with_files, load_signing_material-ensure_keys,
}
use ssf_transmitter.Routes.Webhook.{Request, authenticate_webhook}
use ssf_transmitter.Startup.{
  Disk, run_preflight_checks, check_management_token, check_webhook_auth, check_receiver_allowlist,
  check_stored_streams_allowlist, quarantine_undecryptable_receiver_tokens,
}
use ssf_transmitter.Startup.Laws.{
  is_deliverable, run_preflight_checks-configures, quarantine_undecryptable_receiver_tokens_cases,
}
use ssf_transmitter.Security.Url.{receiver_host_allowed, safe_hostname}
use ssf_transmitter.Database.{StreamRow}
use ssf_transmitter.Config.{Vars}
use ssf_transmitter.Config.Load.{from_env}
use ssf_transmitter.Main.{Found, Started, stored_rows, created, lifespan, boot}

-- The started process can sign, unless it has found both of its files; each enabled stream can be
-- delivered to, unless the check of the tokens failed and left the tables as they were; and no webhook
-- meets an invalid configuration.
abbrev pub IsReady : Found → Started → Type 0
IsReady f started =
    (((f.files.private_key ≢ none) × (f.files.jwks ≢ none))
      ⊎ (load_signing_material started.env ≡ ok (f.pair.pem, key_id f.sha256 f.pair)))
    × ((((f.sqlite.reads && f.sqlite.writes) ≡ false) × (started.db ≡ created f.stored))
        ⊎ (all (is_deliverable started.env) started.db.streams ≡ true))
    × ((request : Request) (raw_body : List ℕ)
        → authenticate_webhook started.env request raw_body
          ≢ err (http 500 "Invalid webhook auth configuration"))

-- The checks look at nothing that the key files hold.
run_preflight_checks-with_files :
    (e : Env) (files : KeyFiles) (disk : Disk) (rows : Option (List StreamRow))
    → run_preflight_checks (with_files e files) disk rows ≡ run_preflight_checks e disk rows
unfolding run_preflight_checks check_management_token check_webhook_auth check_receiver_allowlist
    check_stored_streams_allowlist receiver_host_allowed safe_hostname with_files
run_preflight_checks-with_files e files disk none = refl
run_preflight_checks-with_files e files disk (some rows) = refl

lifespan-started :
    (e : Env) (f : Found) (started : Started)
    → lifespan e f ≡ some started
    → (run_preflight_checks e f.disk (stored_rows f.stored) ≡ true)
      × (started.env ≡ with_files e (ensure_keys f.sha256 f.b64 f.pair f.files))
      × (started.db
          ≡ quarantine_undecryptable_receiver_tokens started.env f.sqlite (created f.stored))
unfolding lifespan
lifespan-started e f started h =
    elim (Bool-cases (run_preflight_checks e f.disk (stored_rows f.stored))) [
      | inr failed ↦ absurd (ground arith)
      | inl passed ↦ (passed, ground arith, ground arith)
    ]

lifespan-IsReady :
    (e : Env) (f : Found) (started : Started)
    → truthy (key_id f.sha256 f.pair) ≡ true
    → lifespan e f ≡ some started
    → IsReady f started
lifespan-IsReady e f started named h =
    let (passed, same, quarantined) = lifespan-started e f started h in
    let files = ensure_keys f.sha256 f.b64 f.pair f.files in
    let deliverable =
      quarantine_undecryptable_receiver_tokens_cases started.env f.sqlite (created f.stored) in
    let passed' : run_preflight_checks started.env f.disk (stored_rows f.stored) ≡ true =
      subst (λ e'. run_preflight_checks e' f.disk (stored_rows f.stored) ≡ true) (sym same)
        (run_preflight_checks-with_files e files f.disk (stored_rows f.stored) ∙ passed) in
    (
      elim (load_signing_material-ensure_keys e f.sha256 f.b64 f.pair f.files named) [
        | inl (key, jwks, kept) ↦ inl (key, jwks)
        | inr loads ↦ inr (ap load_signing_material same ∙ loads)
      ],
      subst
          (λ db.
            (((f.sqlite.reads && f.sqlite.writes) ≡ false) × (db ≡ created f.stored))
            ⊎ (all (is_deliverable started.env) db.streams ≡ true))
          (sym quarantined) deliverable,
      λ request raw_body.
          (run_preflight_checks-configures started.env f.disk (stored_rows f.stored) request
            raw_body passed').0,
    )

-- Where a key has an id, a process that starts from its environment variables and what it finds on
-- disk signs with a key that it has generated, or it has found both of its key files; the token of
-- each enabled stream can be decrypted, or SQLite failed when the tokens were checked, and the tables
-- are as they were found; and no webhook is answered with the error of an invalid
-- configuration.
pub boot-IsReady :
    (e : Env) (vars : Vars) (f : Found) (started : Started)
    → truthy (key_id f.sha256 f.pair) ≡ true
    → boot e vars f ≡ some started
    → IsReady f started
unfolding boot
boot-IsReady e vars f started named h = elim (Result-cases (from_env e vars)) [
  | inr (x, refused) ↦ absurd (ground arith)
  | inl (settings, loaded) ↦
      lifespan-IsReady (record e { settings = settings }) f started named (ground arith)
]
