-- ===== src/Events/Outbox/Wanted.antt =====
-- What `enqueue_events` queues: a signed SET for each event that an enabled stream asks for.
use ssf_transmitter.Prelude.{
  ℕ, suc, String, ◌≡◌, inl, inr, List, [], ◌∷◌, ◌++◌, ◌==◌, string_eq, if◌then◌else◌, arith,
  Bool-cases, subst,
}
use ssf_transmitter.Result.{Result-cases, ok}
use ssf_transmitter.Value.{Fields, obj}
use ssf_transmitter.Environment.{Env}
use ssf_transmitter.Crypto.Set.{sign_set}
use ssf_transmitter.Database.{Stream}
use ssf_transmitter.Events.Mapper.{MappedEvent}
use ssf_transmitter.Events.Pusher.{is_filtered}
use ssf_transmitter.Events.Outbox.{
  queued_payload, delivery_of_event, deliveries_of_stream, deliveries_of,
}

-- The events that a stream asks for, each with the stream.
abbrev pub wanted_of : Stream → List MappedEvent → List (Stream × MappedEvent)
wanted_of stream [] = []
wanted_of stream (event ∷ events) =
    let rest = wanted_of stream events in
    if is_filtered stream event.uri then rest else (stream, event) ∷ rest

-- Those of all enabled streams, stream by stream.
abbrev pub wanted : List Stream → List MappedEvent → List (Stream × MappedEvent)
wanted [] events = []
wanted (stream ∷ streams) events =
    (if stream.status == "enabled" then wanted_of stream events else []) ++ wanted streams events

-- The deliveries are those that are wanted, in their order, each with a token that is signed for its
-- stream, the event and the user.
pub data IsSigned (e : Env) (now : ℕ) (email : String)
    : List (Stream × MappedEvent) → List (Stream × Fields) → Type 0 where
  none_wanted : IsSigned e now email [] []
  signed :
      {stream : Stream} {event : MappedEvent} {token : String} {ws : List (Stream × MappedEvent)}
      {ds : List (Stream × Fields)} (jti spare_txn : String)
      → sign_set e now jti spare_txn event.uri stream.aud email (obj event.payload) event.txn
        ≡ ok token
      → IsSigned e now email ws ds
      → IsSigned e now email
          ((stream, event) ∷ ws)
          ((stream, queued_payload stream event.uri token) ∷ ds)

module _ (e : Env) (now : ℕ) (email : String) where
  IsSigned-append :
      {ws ws' : List (Stream × MappedEvent)} {ds ds' : List (Stream × Fields)}
      → IsSigned e now email ws ds
      → IsSigned e now email ws' ds'
      → IsSigned e now email (ws ++ ws') (ds ++ ds')
  IsSigned-append none_wanted rest = rest
  IsSigned-append (signed jti spare h first) rest = signed jti spare h (IsSigned-append first rest)

  deliveries_of_stream-IsSigned :
      (k j : ℕ) (stream : Stream) (events : List MappedEvent) (ds : List (Stream × Fields))
      → deliveries_of_stream e now email k j stream events ≡ ok ds
      → IsSigned e now email (wanted_of stream events) ds
  unfolding deliveries_of_stream delivery_of_event
  deliveries_of_stream-IsSigned k j stream [] ds h =
      subst (IsSigned e now email []) (ground arith) none_wanted
  deliveries_of_stream-IsSigned k j stream (event ∷ events) ds h =
      elim (Result-cases (deliveries_of_stream e now email k (suc j) stream events)) [
        | inr (x, failed) ↦ absurd (ground arith)
        | inl (rest, found) ↦
            let later = deliveries_of_stream-IsSigned k (suc j) stream events rest found in
            elim (Bool-cases (is_filtered stream event.uri)) [
              | inl filtered ↦
                  rw filtered
                    (subst (IsSigned e now email (wanted_of stream events)) (ground arith) later)
              | inr asked ↦
                  let jti = e.uuid (k ∷ j ∷ 0 ∷ []) in
                  let spare = e.uuid (k ∷ j ∷ 1 ∷ []) in
                  elim (Result-cases (
                    sign_set e now jti spare event.uri stream.aud email (obj event.payload)
                      event.txn)) [
                        | inr (x, failed) ↦ absurd (ground arith)
                        | inl (token, made) ↦ rw asked (
                            subst (IsSigned e now email ((stream, event) ∷ wanted_of stream events))
                              (ground arith) (signed jti spare made later))
                      ]
            ]
      ]

  pub deliveries_of-IsSigned :
      (k : ℕ) (streams : List Stream) (events : List MappedEvent) (ds : List (Stream × Fields))
      → deliveries_of e now email k streams events ≡ ok ds
      → IsSigned e now email (wanted streams events) ds
  unfolding deliveries_of
  deliveries_of-IsSigned k [] events ds h =
      subst (IsSigned e now email []) (ground arith) none_wanted
  deliveries_of-IsSigned k (stream ∷ streams) events ds h =
      elim (Result-cases (deliveries_of e now email (suc k) streams events)) [
        | inr (x, failed) ↦ absurd (ground arith)
        | inl (rest, found) ↦
            let later = deliveries_of-IsSigned (suc k) streams events rest found in
            elim (Bool-cases (stream.status == "enabled")) [
              | inr paused ↦
                  rw paused
                    (subst (IsSigned e now email (wanted streams events)) (ground arith) later)
              | inl enabled ↦
                  elim (Result-cases (deliveries_of_stream e now email k 0 stream events)) [
                    | inr (x, failed) ↦ absurd (ground arith)
                    | inl (first, made) ↦
                        let all =
                          IsSigned-append
                            (deliveries_of_stream-IsSigned k 0 stream events first made) later in
                        rw enabled (
                          subst
                            (IsSigned e now email
                              (wanted_of stream events ++ wanted streams events))
                            (ground arith) all)
                  ]
            ]
      ]
