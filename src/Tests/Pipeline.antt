-- ===== src/Tests/Pipeline.antt =====
-- A webhook of a logout, from its arrival to the queue, at the setting of `Setting`.
use ssf_transmitter.Prelude.{◌≡◌, ◌⊎◌, refl, none, some, ℕ, String, List, [], ◌∷◌, text_or_empty}
use ssf_transmitter.Result.{ok}
use ssf_transmitter.Value.{Fields, arr, obj, text, cons, nil, field, end}
use ssf_transmitter.Environment.{Env}
use ssf_transmitter.Database.{Stream, Db}
use ssf_transmitter.Database.Enqueue.{with_rows}
use ssf_transmitter.Database.Ops.{run}
use ssf_transmitter.Events.Mapper.{session_revoked, map_authentik_event, extract_email}
use ssf_transmitter.Events.Outbox.{queued_payload}
use ssf_transmitter.Routes.Webhook.{
  Request, declared, ignored, accepted, enabled_streams, parse_webhook_json, authentik_webhook,
}
use ssf_transmitter.Routes.Webhook.Laws.{join}
use ssf_transmitter.Routes.Webhook.Queue.{IsQueued, authentik_webhook_cases}
use ssf_transmitter.Prelude.{
  strings_eq, partition, strip, lstrip, rstrip, is_space, after_prefix, starts_with, remove_prefix,
}
use ssf_transmitter.Value.{get, contains, items_of}
use ssf_transmitter.Events.Mapper.{
  extract_body, email_of, nested_dict, session_revoked_event, extract_source_txn,
}
use ssf_transmitter.Database.Streams.{
  list_streams, save_stream, get_stream_by_id, insert_desc, sort_desc, stream_row,
}
use ssf_transmitter.Database.{row_to_stream, runtime_token, stream_eq}
use ssf_transmitter.Events.Outbox.{
  enqueue_events, deliveries_of, deliveries_of_stream, delivery_of_event,
}
use ssf_transmitter.Crypto.Set.{sign_set, load_signing_material, set_claims}
use ssf_transmitter.Database.Outbox.{enqueue_outbox, check_streams, insert_rows, outbox_row}
use ssf_transmitter.Crypto.{
  decrypt_token, encrypt_token, is_valid_fernet_token_format, token_encryption_key,
  encrypt_sensitive_data,
}
use ssf_transmitter.Routes.Webhook.{
  read_body_within_limit, read_chunks, authenticate_webhook, verify_bearer_token, dispatch,
}
use ssf_transmitter.Tests.Setting.{env, receiver, stored}

abbrev logout : Fields
logout =
    field "action" (text "authentik.core.auth.logout")
      (field "user" (obj (field "email" (text "ann@x.example") end)) end)

-- The body of every request is the logout, and there is a key to sign with.
abbrev signing : Env
signing = record env {
  loads_bytes = λ bytes. some (obj logout);
  jwks = obj (field "keys" (arr (cons (obj (field "kid" (text "k1") end)) nil)) end);
}

abbrev hook : Request
hook = record {
  content_length = declared 1;
  authorization = some "bearer hook";
  x_authentik_signature = none;
  chunks = (1 ∷ []) ∷ [];
}

abbrev batch : List (Stream × Fields)
batch = (receiver, queued_payload receiver session_revoked "jwt") ∷ []

abbrev left : Db
left = with_rows signing 9 batch stored

is_accepted : authentik_webhook signing 9 [] hook stored ≡ ok (accepted 1, left)
unfolding strings_eq authentik_webhook parse_webhook_json map_authentik_event extract_email
    queued_payload run partition strip lstrip rstrip is_space after_prefix starts_with remove_prefix
    get contains items_of extract_body email_of nested_dict session_revoked_event extract_source_txn
    list_streams save_stream get_stream_by_id insert_desc sort_desc stream_row row_to_stream
    runtime_token stream_eq enqueue_events deliveries_of deliveries_of_stream delivery_of_event
    sign_set load_signing_material set_claims enqueue_outbox check_streams insert_rows outbox_row
    decrypt_token encrypt_token is_valid_fernet_token_format token_encryption_key
    encrypt_sensitive_data read_body_within_limit read_chunks authenticate_webhook
    verify_bearer_token dispatch
is_accepted = refl

authentik_webhook_cases_example :
    ((reason : String) × (accepted 1 ≡ ignored reason) × (left ≡ stored))
    ⊎ ((payload : Fields) × (n : ℕ) × (parse_webhook_json signing (join hook.chunks) ≡ ok payload)
        × (accepted 1 ≡ accepted n)
        × IsQueued signing 9
            (enabled_streams signing stored)
            (map_authentik_event signing 9 payload)
            (text_or_empty (extract_email signing payload))
            n
            stored
            left)
unfolding run
authentik_webhook_cases_example =
    authentik_webhook_cases signing 9 [] hook stored left (accepted 1) is_accepted
