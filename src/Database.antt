-- ===== src/Database.antt =====
-- app/database.py: the rows of the SQLite tables, the state that the operations share, and the
-- dataclasses that they return. `Streams` and `Outbox` have the operations on each table, `Ops`
-- their union; the modules below these prove their laws.
pub mod Streams
pub mod Outbox
pub mod Ops
pub mod Cases
pub mod Fifo
pub mod Enqueue
pub mod Update
pub mod Patch
pub mod Invariant
use ssf_transmitter.Prelude.{
  ℕ, String, Bool, true, false, Option, none, some, List, [], ◌&&◌, ◌==◌, string_eq, nat_eq,
  strings_eq_instance,
}
use ssf_transmitter.Result.{ok, err}
use ssf_transmitter.Environment.{Env}
use ssf_transmitter.Crypto.{decrypt_token}

abbrev pub max_outbox_items : ℕ
max_outbox_items = 10_000

pub record Stream : Type 0 where
  pub stream_id : String
  pub aud : String
  pub endpoint_url : String
  pub endpoint_token : String
  pub events_requested : List String
  pub status : String
  pub created_at : ℕ

-- A row of `streams`: `endpoint_token` is the stored form. The JSON text of the `events_requested`
-- column is read as the list that it encodes.
pub record StreamRow : Type 0 where
  pub stream_id : String
  pub aud : String
  pub endpoint_url : String
  pub endpoint_token : String
  pub events_requested : List String
  pub status : String
  pub created_at : ℕ

-- The two values of the `status` column of `set_outbox`.
pub data RowStatus : Type 0 where
  pending blocked : RowStatus

pub record OutboxRow : Type 0 where
  pub id : ℕ
  pub stream_id : String
  pub payload : String
  pub created_at : ℕ
  pub attempts : ℕ
  pub next_attempt_at : ℕ
  pub status : RowStatus
  pub last_error : Option String

pub record OutboxItem : Type 0 where
  pub id : ℕ
  pub stream_id : String
  pub payload : String
  pub created_at : ℕ
  pub attempts : ℕ

-- The row of `apple_scim_tokens` whose id is 1.
pub record TokenRow : Type 0 where
  pub access_token : String
  pub refresh_token : Option String
  pub expires_at : ℕ
  pub updated_at : ℕ

-- The tables, in the order of insertion. `next_id` is what AUTOINCREMENT gives next.
pub record Db : Type 0 where
  pub streams : List StreamRow
  pub outbox : List OutboxRow
  pub next_id : ℕ
  pub tokens : Option TokenRow

-- `init_db` on a new file.
abbrev pub init_db : Db
init_db = record { streams = []; outbox = []; next_id = 1; tokens = none }

abbrev pub is_pending : OutboxRow → Bool
is_pending r = elim r.status [ pending ↦ true | blocked ↦ false ]

abbrev pub is_blocked : OutboxRow → Bool
is_blocked r = elim r.status [ pending ↦ false | blocked ↦ true ]

-- A token that cannot be decrypted reads as the empty text.
unfoldable pub runtime_token : Env → String → String
runtime_token e stored = elim (decrypt_token e stored) [ ok token ↦ token | err _ ↦ "" ]

unfoldable pub row_to_stream : Env → StreamRow → Stream
unfolding runtime_token
row_to_stream e row = record {
  stream_id = row.stream_id;
  aud = row.aud;
  endpoint_url = row.endpoint_url;
  endpoint_token = runtime_token e row.endpoint_token;
  events_requested = row.events_requested;
  status = row.status;
  created_at = row.created_at;
}

-- `==` of the dataclass.
unfoldable pub stream_eq : Stream → Stream → Bool
stream_eq a b =
    a.stream_id == b.stream_id
    && a.aud == b.aud
    && a.endpoint_url == b.endpoint_url
    && a.endpoint_token == b.endpoint_token
    && a.events_requested == b.events_requested
    && a.status == b.status
    && a.created_at == b.created_at
