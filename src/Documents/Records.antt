-- ===== src/Documents/Records.antt =====
-- Leases, documents and epochs as the projections hold them (state/documents.py).
use aizim.Prelude.{Bool, true, false, ◌||◌, Option, none, some, String, same_text, if◌then◌else◌}
use aizim.Outcome.{Outcome, ok, ◌>>=◌}
use aizim.Json.{
  JsonValue, JsonObject, null, string, get, get_text, get_natural, get_object, as_object,
}
use aizim.Projections.{ProjectionRecord}
use aizim.Documents.{
  Formats, EpochPair, LeaseState, DocumentState, is_hash, refused, require_some, text_field,
  integer_field, hash_field, timestamp,
}

-- The three parts of a state that an event has written.
pub record StoredEvent : Type 0 where
  pub event_type : String
  pub run_id : Option String
  pub payload : JsonObject

-- `None` or a text, where nothing else is accepted.
abbrev optional_text : Option JsonValue → Outcome (Option String)
optional_text none = ok none
optional_text (some null) = ok none
optional_text (some (string s)) = ok (some s)
optional_text (some _) = refused "INVALID_DOCUMENT_STATE"

abbrev state_of : ProjectionRecord → String → Outcome JsonObject
state_of r reason = require_some reason (as_object r.state_json)

-- `projection_payload` of state/documents.py
unfoldable pub stored_event : ProjectionRecord → Outcome StoredEvent
stored_event r = do
  raw ← state_of r "INVALID_DOCUMENT_STATE"
  event_type ← require_some "INVALID_DOCUMENT_STATE" (get_text "event_type" raw)
  run_id ← optional_text (get "run_id" raw)
  payload ← require_some "INVALID_DOCUMENT_STATE" (get_object "payload" raw)
  ok (record { event_type = event_type; run_id = run_id; payload = payload })

-- `_DOCUMENT_STATE_EVENT_TYPES`
unfoldable pub is_document_event : String → Bool
is_document_event t =
    same_text t "LeaseGranted"
    || same_text t "DocumentEditPrepared"
    || same_text t "DocumentEdited"
    || same_text t "DocumentEditRecovered"

-- `is_document_state_projection`
unfoldable pub is_document_state_projection : ProjectionRecord → Outcome Bool
unfolding stored_event is_document_event
is_document_state_projection r = do
  stored ← stored_event r
  ok (is_document_event stored.event_type)

-- `is_active_document_lease_projection`
unfoldable pub is_active_document_lease_projection : ProjectionRecord → Outcome Bool
unfolding stored_event
is_active_document_lease_projection r = do
  stored ← stored_event r
  ok (same_text stored.event_type "LeaseGranted")

-- What `document_from_projection` makes of a lease that it reads from the same fields.
abbrev pub document_of : String → String → LeaseState → DocumentState
document_of event_type event_id lease = record {
  document_id = lease.document_id;
  run_id = lease.run_id;
  worker_id = lease.worker_id;
  lease_id = lease.lease_id;
  relative_path = lease.relative_path;
  virtual_document_namespace = lease.virtual_document_namespace;
  epoch_pair = lease.epoch_pair;
  file_version = lease.file_version;
  content_hash = lease.content_hash;
  expires_at = lease.expires_at;
  prepared_event_id = if same_text event_type "DocumentEditPrepared" then some event_id else none;
}

module _ (formats : Formats) where
  -- What `lease_from_projection` makes of a payload.
  unfoldable pub lease_of : String → String → JsonObject → Outcome LeaseState
  unfolding text_field integer_field hash_field timestamp
  lease_of event_type run_id payload = do
    lease_id ← text_field "lease_id" payload
    worker_id ← text_field "worker_id" payload
    document_id ← text_field "document_id" payload
    relative_path ← text_field "relative_path" payload
    virtual_document_namespace ← text_field "virtual_document_namespace" payload
    base_epoch ← hash_field "base_epoch" payload
    knowledge_epoch ← integer_field "knowledge_epoch" payload
    file_version ← integer_field "version" payload
    content_hash ← hash_field "content_hash" payload
    expires_at ← timestamp formats "expires_at" payload
    ok (record {
      lease_id = lease_id;
      worker_id = worker_id;
      run_id = run_id;
      document_id = document_id;
      relative_path = formats.as_posix relative_path;
      virtual_document_namespace = virtual_document_namespace;
      epoch_pair = record { base_epoch = base_epoch; knowledge_epoch = knowledge_epoch };
      file_version = file_version;
      content_hash = content_hash;
      expires_at = expires_at;
      active = same_text event_type "LeaseGranted";
    })

  -- `lease_from_projection`
  unfoldable pub lease_from_projection : ProjectionRecord → Outcome LeaseState
  unfolding stored_event lease_of
  lease_from_projection r = do
    stored ← stored_event r
    run_id ← require_some "INVALID_DOCUMENT_STATE" stored.run_id
    lease_of stored.event_type run_id stored.payload

  -- `document_from_projection`. Its fields are those of a lease, and each refusal is the same.
  unfoldable pub document_from_projection : ProjectionRecord → Outcome DocumentState
  unfolding stored_event lease_of
  document_from_projection r = do
    stored ← stored_event r
    run_id ← require_some "INVALID_DOCUMENT_STATE" stored.run_id
    raw ← state_of r "INVALID_DOCUMENT_STATE"
    event_id ← require_some "INVALID_DOCUMENT_STATE" (get_text "event_id" raw)
    lease ← lease_of stored.event_type run_id stored.payload
    ok (document_of stored.event_type event_id lease)

abbrev epochs_where : Bool → EpochPair → Outcome EpochPair
epochs_where true e = ok e
epochs_where false e = refused "EPOCH_MISMATCH"

-- `epoch_from_projection`
unfoldable pub epoch_from_projection : ProjectionRecord → Outcome EpochPair
unfolding is_hash
epoch_from_projection r = do
  raw ← state_of r "EPOCH_MISMATCH"
  base_epoch ← require_some "EPOCH_MISMATCH" (get_text "base_epoch" raw)
  knowledge_epoch ← require_some "EPOCH_MISMATCH" (get_natural "knowledge_epoch" raw)
  epochs_where (is_hash base_epoch)
      (record { base_epoch = base_epoch; knowledge_epoch = knowledge_epoch })
