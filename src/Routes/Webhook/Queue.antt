-- ===== src/Routes/Webhook/Queue.antt =====
-- From a webhook to the queue.
use ssf_transmitter.Prelude.{
  ℕ, String, ◌≡◌, ◌⊎◌, inl, inr, List, All, length, is_empty, arith, Bool-cases, truthy,
  text_or_empty,
}
use ssf_transmitter.Result.{Result-cases, ok}
use ssf_transmitter.Value.{Fields}
use ssf_transmitter.Environment.{Env}
use ssf_transmitter.Database.{Stream, Db}
use ssf_transmitter.Database.Ops.{Op, run}
use ssf_transmitter.Database.Enqueue.{IsStored, with_rows, enqueue_outbox_sound}
use ssf_transmitter.Events.Mapper.{MappedEvent, map_authentik_event, extract_email}
use ssf_transmitter.Events.Outbox.{deliveries_of, enqueue_events}
use ssf_transmitter.Events.Outbox.Wanted.{wanted, IsSigned, deliveries_of-IsSigned}
use ssf_transmitter.Routes.Webhook.{
  Reply, Request, ignored, accepted, enabled_streams, parse_webhook_json, dispatch,
  authentik_webhook,
}
use ssf_transmitter.Routes.Webhook.Laws.{join, authentik_webhook-IsAuthentic}

-- A batch with a signed SET for each event that a stream asks for, of streams that are stored as they
-- were read and enabled, stands behind the other rows.
abbrev pub IsQueued : Env → ℕ → List Stream → List MappedEvent → String → ℕ → Db → Db → Type 0
IsQueued e now streams events email n db db' =
    (ds : List (Stream × Fields)) × (n ≡ length ds)
    × IsSigned e now email (wanted streams events) ds
    × All (IsStored e db) ds
    × (db' ≡ with_rows e now ds db)

enqueue_events-IsQueued :
    (e : Env) (now n : ℕ) (streams : List Stream) (events : List MappedEvent) (email : String)
    (db db' : Db)
    → enqueue_events e now streams events email db ≡ ok (n, db')
    → IsQueued e now streams events email n db db'
unfolding enqueue_events
enqueue_events-IsQueued e now n streams events email db db' h =
    elim (Result-cases (deliveries_of e now email 0 streams events)) [
      | inr (x, failed) ↦ absurd (ground arith)
      | inl (ds, found) ↦
          let (count, stored, left) = enqueue_outbox_sound e now n ds db db' (ground arith) in
          (ds, count, deliveries_of-IsSigned e now email 0 streams events ds found, stored, left)
    ]

dispatch_cases :
    (e : Env) (now : ℕ) (during : List Op) (payload : Fields) (db db' : Db) (reply : Reply)
    → dispatch e now during payload db ≡ ok (reply, db')
    → ((reason : String) × (reply ≡ ignored reason) × (db' ≡ db))
      ⊎ ((n : ℕ) × (reply ≡ accepted n)
          × IsQueued e now
              (enabled_streams e db)
              (map_authentik_event e now payload)
              (text_or_empty (extract_email e payload))
              n
              (run e during db)
              db')
unfolding dispatch
dispatch_cases e now during payload db db' reply h =
    let events = map_authentik_event e now payload in
    let email = text_or_empty (extract_email e payload) in
    let streams = enabled_streams e db in
    elim (Bool-cases (is_empty events)) [
      | inl unmapped ↦ inl ("unmapped_event", ground arith, ground arith)
      | inr mapped ↦ elim (Bool-cases (truthy email)) [
        | inr missing ↦ inl ("missing_email", ground arith, ground arith)
        | inl given ↦ elim (Bool-cases (is_empty streams)) [
          | inl nobody ↦ inl ("no_enabled_stream", ground arith, ground arith)
          | inr somebody ↦
              elim (Result-cases (enqueue_events e now streams events email (run e during db))) [
                | inr (x, refused) ↦ absurd (ground arith)
                | inl ((n, left), queued) ↦ inr (
                  n,
                  ground arith,
                  enqueue_events-IsQueued e now n streams events email (run e during db) db'
                      (ground arith),
                )
              ]
        ]
      ]
    ]

-- A webhook that gets a reply leaves the tables as they are, if it is ignored. If it is accepted with
-- a number, the events are those that its body maps to, and so many rows are put behind the others of
-- the tables as other tasks have left them: one for each event that a stream which was enabled when
-- the webhook was read asks for, stream by stream and in the order of the events, with a token that is
-- signed for the stream, the event and the user's email address; and each such stream is still stored
-- as it was read.
pub authentik_webhook_cases :
    (e : Env) (now : ℕ) (during : List Op) (request : Request) (db db' : Db) (reply : Reply)
    → authentik_webhook e now during request db ≡ ok (reply, db')
    → ((reason : String) × (reply ≡ ignored reason) × (db' ≡ db))
      ⊎ ((payload : Fields) × (n : ℕ) × (parse_webhook_json e (join request.chunks) ≡ ok payload)
          × (reply ≡ accepted n)
          × IsQueued e now
              (enabled_streams e db)
              (map_authentik_event e now payload)
              (text_or_empty (extract_email e payload))
              n
              (run e during db)
              db')
authentik_webhook_cases e now during request db db' reply h =
    let (_, _, (payload, parsed, done)) =
      authentik_webhook-IsAuthentic e now during request db db' reply h in
    elim (dispatch_cases e now during payload db db' reply done) [
      | inl ignored_it ↦ inl ignored_it
      | inr (n, answered, queued) ↦ inr (payload, n, parsed, answered, queued)
    ]
