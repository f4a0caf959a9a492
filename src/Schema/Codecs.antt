-- ===== src/Schema/Codecs.antt =====
-- The codec of each type of event (state/schema_v1.py), and the validation of a payload by it.
use Prim.Native.String.{◌++◌ as append}
use aizim.Prelude.{List, [], ◌∷◌, ◌++◌, String, Bool, if◌then◌else◌, Option, none, some}
use aizim.Outcome.{Outcome, ok, raised, event_validation_error}
use aizim.Json.{JsonObject}
use aizim.Events.{
  EventType, type_name, research_record_updated, project_initialized, run_created, run_completed,
  run_aborted, worker_registered, worker_started, worker_stopped, worker_crashed, capability_minted,
  capability_denied, sandbox_probe_started, sandbox_probe_denied, sandbox_probe_passed,
  sandbox_probe_failed, lease_granted, lease_released, lease_recovered, document_edit_prepared,
  document_edited, document_edit_recovered, formal_action_recorded, contribution_submitted,
  contribution_rebased, contribution_enqueued, promotion_state_changed, promotion_prepared,
  promotion_failed, declaration_published, knowledge_delta_published, knowledge_delta_acknowledged,
  lean_runtime_started, lean_runtime_crashed, lean_runtime_restarted,
  environment_transition_proposed, environment_transition_approved, environment_transition_rejected,
  alignment_reviewed, intervention_recorded,
}
use aizim.Documents.{Formats}
use aizim.Schema.{
  PayloadValidator, PayloadCodec, codec_of, validate, integer_payload, sha256_payload,
  strings_payload, enum, timestamp_payload, patch_edits_payload,
}
use aizim.Schema.Orchestration.{orchestration_codec}

-- `DOCUMENT_FIELDS`
unfoldable pub document_fields : List String
document_fields =
    "document_id" ∷ "lease_id" ∷ "worker_id" ∷ "relative_path" ∷ "virtual_document_namespace"
    ∷ "base_epoch" ∷ "knowledge_epoch" ∷ "version" ∷ "content_hash" ∷ "expires_at" ∷ []

-- `_CONTRIBUTION_OPTIONAL`
contribution_optional : List String
contribution_optional =
    "worker_id" ∷ "lease_id" ∷ "document_id" ∷ "payload_kind" ∷ "payload_hash"
    ∷ "expected_file_version" ∷ "expected_content_hash" ∷ "environment_fingerprint" ∷ "base_epoch"
    ∷ "knowledge_epoch" ∷ "candidate_name" ∷ "complete_type" ∷ "imports" ∷ "dependencies"
    ∷ "assumptions" ∷ "evidence_links" ∷ "edits" ∷ "rebased_from" ∷ []

-- `_CONTRIBUTION_VALIDATORS`
contribution_validators : List (String × PayloadValidator)
contribution_validators =
    ("payload_kind", enum ("patch" ∷ "snapshot" ∷ []))
    ∷ ("payload_hash", sha256_payload)
    ∷ ("expected_file_version", integer_payload)
    ∷ ("expected_content_hash", sha256_payload)
    ∷ ("environment_fingerprint", sha256_payload)
    ∷ ("edits", patch_edits_payload)
    ∷ ("base_epoch", sha256_payload)
    ∷ ("knowledge_epoch", integer_payload)
    ∷ ("imports", strings_payload)
    ∷ ("dependencies", strings_payload)
    ∷ ("assumptions", strings_payload)
    ∷ ("evidence_links", strings_payload)
    ∷ []

-- `_DECLARATION_OPTIONAL`
declaration_optional : List String
declaration_optional =
    "name" ∷ "type" ∷ "content_hash" ∷ "contribution_id" ∷ "module" ∷ "dependencies" ∷ "assumptions"
    ∷ "axioms" ∷ "evidence_links" ∷ "publication_sequence" ∷ []

-- `_DELTA_OPTIONAL`
delta_optional : List String
delta_optional =
    "declaration_id" ∷ "contribution_id" ∷ "previous_base_epoch" ∷ "previous_knowledge_epoch"
    ∷ "fully_qualified_name" ∷ "complete_type" ∷ "module" ∷ "dependencies" ∷ "assumptions"
    ∷ "axioms" ∷ "evidence_links" ∷ "publication_sequence" ∷ []

module _ (formats : Formats) where
  -- `DOCUMENT_VALIDATORS`
  unfoldable pub document_validators : List (String × PayloadValidator)
  document_validators =
      ("base_epoch", sha256_payload)
      ∷ ("content_hash", sha256_payload)
      ∷ ("expires_at", timestamp_payload formats)
      ∷ []

  -- `_CODECS` before its extension
  unfoldable pub core_codec : EventType → Option PayloadCodec
  unfolding document_fields contribution_optional contribution_validators declaration_optional
      delta_optional document_validators
  core_codec project_initialized = some (
      codec_of ("project_id" ∷ "base_epoch" ∷ "knowledge_epoch" ∷ [])
        ("environment_fingerprint" ∷ [])
        (("base_epoch", sha256_payload) ∷ ("environment_fingerprint", sha256_payload) ∷ []))
  core_codec run_created = some (codec_of [] ("manifest" ∷ "status" ∷ []) [])
  core_codec run_completed =
      some
        (codec_of [] ("outcome" ∷ "ended_at" ∷ []) (("ended_at", timestamp_payload formats) ∷ []))
  core_codec run_aborted =
      some (
        codec_of [] ("reason_code" ∷ "ended_at" ∷ [])
          (("ended_at", timestamp_payload formats) ∷ []))
  core_codec worker_registered = some (codec_of ("worker_id" ∷ []) ("role" ∷ "status" ∷ []) [])
  core_codec worker_started = some (
      codec_of ("worker_id" ∷ []) ("role" ∷ "started_at" ∷ [])
        (("started_at", timestamp_payload formats) ∷ []))
  core_codec worker_stopped = some (
      codec_of ("worker_id" ∷ []) ("reason_code" ∷ "stopped_at" ∷ [])
        (("stopped_at", timestamp_payload formats) ∷ []))
  core_codec worker_crashed = some (
      codec_of ("worker_id" ∷ []) ("reason_code" ∷ "artifact_hash" ∷ [])
        (("artifact_hash", sha256_payload) ∷ []))
  core_codec capability_minted = some (
      codec_of ("worker_id" ∷ "role" ∷ [])
        ("token_hash" ∷ "lease_id" ∷ "operations" ∷ "expires_at" ∷ [])
        (("token_hash", sha256_payload) ∷ ("expires_at", timestamp_payload formats) ∷ []))
  core_codec capability_denied =
      some (codec_of ("reason_code" ∷ "role" ∷ "worker_id" ∷ "operation" ∷ "request_id" ∷ []) [] [])
  core_codec sandbox_probe_started = some (codec_of ("probe_id" ∷ []) ("profile" ∷ []) [])
  core_codec sandbox_probe_denied = some (
      codec_of ("probe_id" ∷ "reason_code" ∷ []) ("operation" ∷ "policy_hash" ∷ [])
        (("policy_hash", sha256_payload) ∷ []))
  core_codec sandbox_probe_passed = some (
      codec_of ("probe_id" ∷ []) ("operation" ∷ "policy_hash" ∷ [])
        (("policy_hash", sha256_payload) ∷ []))
  core_codec sandbox_probe_failed = some (
      codec_of ("probe_id" ∷ "reason_code" ∷ []) ("artifact_hash" ∷ [])
        (("artifact_hash", sha256_payload) ∷ []))
  core_codec lease_granted = some (codec_of document_fields [] (document_validators))
  core_codec lease_released = some (codec_of ("lease_id" ∷ []) ("reason_code" ∷ []) [])
  core_codec lease_recovered = some (codec_of ("lease_id" ∷ []) ("reason_code" ∷ []) [])
  core_codec document_edit_prepared = some (
      codec_of (document_fields ++ "expected_version" ∷ "expected_hash" ∷ []) []
        (("expected_hash", sha256_payload) ∷ document_validators))
  core_codec document_edited = some (codec_of document_fields [] (document_validators))
  core_codec document_edit_recovered = some (codec_of document_fields [] (document_validators))
  core_codec formal_action_recorded = some (
      codec_of
        ("action_id" ∷ "action_kind" ∷ "worker_id" ∷ "document_id" ∷ "input_hash" ∷ "output_hash"
          ∷ "verdict" ∷ "document_version" ∷ "base_epoch" ∷ "knowledge_epoch" ∷ "started_at"
          ∷ "completed_at" ∷ [])
        []
        (("action_kind", enum ("diagnostics" ∷ "goal" ∷ "trial" ∷ []))
          ∷ ("input_hash", sha256_payload)
          ∷ ("output_hash", sha256_payload)
          ∷ ("document_version", integer_payload)
          ∷ ("started_at", timestamp_payload formats)
          ∷ ("completed_at", timestamp_payload formats)
          ∷ []))
  core_codec contribution_submitted =
      some (codec_of ("contribution_id" ∷ []) contribution_optional contribution_validators)
  core_codec contribution_rebased = some (
      codec_of ("contribution_id" ∷ "source_contribution_id" ∷ []) ("base_epoch" ∷ [])
        (("base_epoch", sha256_payload) ∷ []))
  core_codec contribution_enqueued = some (codec_of ("contribution_id" ∷ []) ("state" ∷ []) [])
  core_codec promotion_state_changed =
      some (codec_of ("contribution_id" ∷ "state" ∷ []) ("state_version" ∷ "former_owner" ∷ []) [])
  core_codec promotion_prepared = some (
      codec_of
        ("contribution_id" ∷ "module" ∷ "content_hash" ∷ "base_epoch" ∷ "knowledge_epoch"
          ∷ "declaration_id" ∷ "delta_id" ∷ [])
        [] (("content_hash", sha256_payload) ∷ ("base_epoch", sha256_payload) ∷ []))
  core_codec promotion_failed = some (
      codec_of ("contribution_id" ∷ "reason_code" ∷ []) ("artifact_hash" ∷ [])
        (("artifact_hash", sha256_payload) ∷ []))
  core_codec declaration_published = some (
      codec_of ("declaration_id" ∷ []) declaration_optional (
        ("content_hash", sha256_payload)
        ∷ ("dependencies", strings_payload)
        ∷ ("assumptions", strings_payload)
        ∷ ("axioms", strings_payload)
        ∷ ("evidence_links", strings_payload)
        ∷ ("publication_sequence", integer_payload)
        ∷ []))
  core_codec knowledge_delta_published = some (
      codec_of ("delta_id" ∷ "base_epoch" ∷ "knowledge_epoch" ∷ []) delta_optional (
        ("base_epoch", sha256_payload)
        ∷ ("previous_base_epoch", sha256_payload)
        ∷ ("previous_knowledge_epoch", integer_payload)
        ∷ ("publication_sequence", integer_payload)
        ∷ ("dependencies", strings_payload)
        ∷ ("assumptions", strings_payload)
        ∷ ("axioms", strings_payload)
        ∷ ("evidence_links", strings_payload)
        ∷ []))
  core_codec knowledge_delta_acknowledged = some (
      codec_of ("acknowledgement_id" ∷ "worker_id" ∷ "delta_id" ∷ []) []
        (("acknowledgement_id", sha256_payload) ∷ []))
  core_codec lean_runtime_started = some (
      codec_of ("runtime_id" ∷ []) ("mode" ∷ "started_at" ∷ [])
        (("started_at", timestamp_payload formats) ∷ []))
  core_codec lean_runtime_crashed = some (
      codec_of ("runtime_id" ∷ "reason_code" ∷ []) ("artifact_hash" ∷ [])
        (("artifact_hash", sha256_payload) ∷ []))
  core_codec lean_runtime_restarted =
      some (codec_of ("runtime_id" ∷ []) ("previous_runtime_id" ∷ []) [])
  core_codec environment_transition_proposed = some (
      codec_of ("transition_id" ∷ "old_fingerprint" ∷ "new_fingerprint" ∷ "reason" ∷ []) []
        (("old_fingerprint", sha256_payload) ∷ ("new_fingerprint", sha256_payload) ∷ []))
  core_codec environment_transition_approved = some (
      codec_of
        ("transition_id" ∷ "old_fingerprint" ∷ "new_fingerprint" ∷ "reason" ∷ "reviewer" ∷ []) []
        (("old_fingerprint", sha256_payload) ∷ ("new_fingerprint", sha256_payload) ∷ []))
  core_codec environment_transition_rejected =
      some (codec_of ("transition_id" ∷ []) ("reason_code" ∷ []) [])
  core_codec alignment_reviewed =
      some (codec_of ("review_id" ∷ []) ("verdict" ∷ "reviewer" ∷ "kind" ∷ []) [])
  core_codec intervention_recorded =
      some (codec_of ("intervention_id" ∷ []) ("kind" ∷ "actor" ∷ "reason" ∷ []) [])
  core_codec _ = none

  module _ (valid_record : JsonObject → Bool) where
    abbrev validate_by : EventType → JsonObject → Option PayloadCodec → Outcome (Unit {0})
    validate_by t payload none = raised (
        event_validation_error "event_type"
          (append "unknown event type '" (append (type_name t) "'")))
    validate_by t payload (some codec) = validate (type_name t) codec payload

    abbrev or_codec : Option PayloadCodec → Option PayloadCodec → Option PayloadCodec
    or_codec none c = c
    or_codec (some c) d = some c

    -- `validate_payload`; the records of research have a test of their own.
    unfoldable pub validate_payload : EventType → JsonObject → Outcome (Unit {0})
    unfolding core_codec orchestration_codec
    validate_payload research_record_updated payload =
        if valid_record payload
        then ok tt
        else raised (
            event_validation_error (type_name research_record_updated)
              "invalid typed research record")
    validate_payload t payload =
        validate_by t payload (or_codec (core_codec t) (orchestration_codec t))
