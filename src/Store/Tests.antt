-- ===== src/Store/Tests.antt =====
-- The end of a lease, and the theorem at it.
use mathlib.Core.List.{Memᴰ}
use aizim.Prelude.{ℕ, ◌≡◌, refl, true, Option, none, some, [], ◌∷◌, is_some}
use aizim.Json.{string, field, end}
use aizim.Events.{EventEnvelope, event_schema_version, lease_released}
use aizim.Database.{CapabilityRecord, Database, initial}
use aizim.Store.Leases.{append-revokes}
use aizim.Reducers.{
  event_projection, entity_id, next_version, next_record, event_state, projection_payload,
  complete_document_payload, document_changes, epoch_change, apply_event,
}
use aizim.Tokens.{revoke_lease, revoke_lease_capabilities}
use aizim.Json.{get, put, integer_eq, object_eq, get_text, get_object, value_eq, object_within}
use aizim.Projections.{contains, is_registered, find_record}
use aizim.Tx.{pure, lift, gets, transaction, rename_failure, ◌>>=◌, refuse_if}
use aizim.Orchestration.{
  orchestration_projection, target_status, is_text, is_none, allowed_previous, previous_payload,
  same_value?, require_same_execution, merged_payload, entity_of, reduce_orchestration_payload,
}
use aizim.Artifacts.{register_artifact}
use aizim.Events.{type_name, is_type, stamped}
use aizim.Store.{
  has_event, insert_event, upsert, write_changes, save_projections, apply_event_mutation, append,
}

abbrev token : Option ℕ → CapabilityRecord
token revoked = record {
  token_hash = "hash";
  run_id = "run";
  worker_id = "w";
  role = "formalizer";
  lease_id = some "lease";
  operations = "edit" ∷ [];
  expires_at = 100;
  revoked_at = revoked;
}

abbrev held_database : Database
held_database = record initial { capability_tokens = token none ∷ [] }

abbrev release : EventEnvelope
release = record {
  event_id = "01";
  schema_version = event_schema_version;
  event_type = lease_released;
  occurred_at = 50;
  actor = "service";
  run_id = some "run";
  causation_id = none;
  payload = field "lease_id" (string "lease") end;
}

append-revokes_example : is_some (token (some 50)).revoked_at ≡ true
unfolding event_projection entity_id next_version next_record event_state projection_payload
    complete_document_payload document_changes epoch_change apply_event revoke_lease
    revoke_lease_capabilities get put integer_eq object_eq get_text get_object value_eq
    object_within contains is_registered find_record pure lift gets transaction rename_failure ◌>>=◌
    refuse_if orchestration_projection target_status is_text is_none allowed_previous
    previous_payload same_value? require_same_execution merged_payload entity_of
    reduce_orchestration_payload register_artifact type_name is_type stamped has_event insert_event
    upsert write_changes save_projections apply_event_mutation append
append-revokes_example =
    append-revokes apply_event release (record { sequence = 1; envelope = release }) held_database
      (append apply_event release held_database).1 "run" "lease" (token (some 50)) refl refl refl
      refl (Memᴰ.head refl) refl refl
