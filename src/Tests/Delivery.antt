-- ===== src/Tests/Delivery.antt =====
-- Theorems on the delivery of queued SETs, at the row of `Setting`.
use ssf_transmitter.Prelude.{
  List, false, ◌-◌, ◌*◌, ◌^◌, ◌≤◌, ◌≡◌, ◌⊎◌, refl, subst, after_prefix, strings_eq, [], ◌∷◌, arith,
  All,
}
use ssf_transmitter.Database.{init_db, stream_eq, row_to_stream}
use ssf_transmitter.Database.Streams.{get_stream_by_id, save_stream}
use ssf_transmitter.Crypto.{decrypt_token, encrypt_token}
use ssf_transmitter.Database.Invariant.{IsValid, run-init_db-IsValid}
use ssf_transmitter.Database.Outbox.{
  outbox_row, to_item, complete_outbox_item, get_due_outbox, get_due_outbox_item, sort_fifo,
  check_streams, insert_rows, enqueue_outbox,
}
use ssf_transmitter.Database.Ops.{Op, save, enqueue, apply, run}
use ssf_transmitter.Events.Mapper.{session_revoked}
use ssf_transmitter.Events.Pusher.{Request, request_of}
use ssf_transmitter.Events.Outbox.{
  deliver_item, deliver_items, deliver_pending, queued_payload, retry_delay,
}
use ssf_transmitter.Events.Outbox.Delay.{retry_delay_lem}
use ssf_transmitter.Events.Outbox.Safety.{IsEntitled, deliver_item-IsEntitled}
use ssf_transmitter.Events.Outbox.Loop.{Round, delivery_loop, IsSafe, delivery_loop-IsSafe}
use ssf_transmitter.Events.Outbox.NoLoss.{
  IsUnlocked, requeues, IsQueued, IsKept, IsDelivered, IsStale, deliver_item_keeps,
}
use ssf_transmitter.Events.Outbox.EndToEnd.{deliver_item-outbox_row}
use ssf_transmitter.Tests.Setting.{
  env, fernet_law, receiver, payload, stored, queued, item, world, turn, stored-receiver,
  receiver-IsCurrent, receiver-IsAccepted,
}

deliver_item-IsEntitled_example :
    ((deliver_item env world item queued).1 ≡ [])
    ⊎ ((q : Request) × ((deliver_item env world item queued).1 ≡ q ∷ [])
        × IsEntitled env world item queued q)
deliver_item-IsEntitled_example = deliver_item-IsEntitled env world item queued

during-IsUnlocked : All IsUnlocked world.during
during-IsUnlocked = (requeues 7, tt)

item-IsQueued : IsQueued item.id queued
unfolding outbox_row
item-IsQueued = refl

deliver_item_keeps_example :
    IsKept item.id (deliver_item env world item queued).0
    ⊎ IsDelivered env world item queued
    ⊎ IsStale env item queued
deliver_item_keeps_example =
    deliver_item_keeps env world item queued during-IsUnlocked item-IsQueued

deliver_item-outbox_row_example :
    deliver_item env world
      (to_item (outbox_row env 5 1 (receiver, queued_payload receiver session_revoked "jwt")))
      stored
    ≡ (complete_outbox_item 1 (run env world.during stored), request_of receiver "jwt" ∷ [])
deliver_item-outbox_row_example =
    deliver_item-outbox_row env fernet_law world 5 1 receiver session_revoked "jwt" stored refl
      stored-receiver refl refl receiver-IsCurrent receiver-IsAccepted

retry_delay_lem_example :
    (5 ≤ retry_delay 3)
    × (retry_delay 3 ≤ retry_delay 8)
    × (retry_delay 8 ≤ 3600)
    × ((8 ≤ 10) × (retry_delay 8 ≡ 5 * 2 ^ (8 - 1)) ⊎ (11 ≤ 8) × (retry_delay 8 ≡ 3600))
retry_delay_lem_example = retry_delay_lem 3 8 (omega arith)

abbrev rounds : List Round
rounds = record { stop = false; now = 6; turn = turn; between = [] } ∷ []

-- The stream is stored and its row queued by operations on the empty tables.
abbrev queueing : List Op
queueing = save receiver ∷ enqueue 5 ((receiver, payload) ∷ []) ∷ []

is_queued : run env queueing init_db ≡ queued
unfolding run apply enqueue_outbox check_streams get_stream_by_id save_stream stream_eq
    row_to_stream decrypt_token encrypt_token after_prefix strings_eq insert_rows
is_queued = refl

queued-IsValid : IsValid queued
queued-IsValid = subst IsValid is_queued (run-init_db-IsValid env queueing)

-- The row is delivered: its request is sent.
is_delivered : (delivery_loop env rounds queued).sent ≡ request_of receiver "jwt" ∷ []
unfolding delivery_loop deliver_pending deliver_items get_due_outbox get_due_outbox_item sort_fifo
    run save_stream get_stream_by_id outbox_row request_of
is_delivered =
    rw
      (deliver_item-outbox_row env fernet_law world 5 1 receiver session_revoked "jwt" queued refl
        stored-receiver refl refl receiver-IsCurrent receiver-IsAccepted)
      refl

delivery_loop-IsSafe_example : IsSafe env rounds queued (delivery_loop env rounds queued)
delivery_loop-IsSafe_example = delivery_loop-IsSafe env rounds queued queued-IsValid
