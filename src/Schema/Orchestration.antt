-- ===== src/Schema/Orchestration.antt =====
-- The codecs of state/schema_v1_orchestration.py.
use aizim.Prelude.{[], ◌∷◌, Option, none, some}
use aizim.Events.{
  EventType, controller_configured, worker_configured, worker_task_assigned, schedule_proposed,
  worker_cursor_saved, worker_timed_out, agent_run_completed, promotion_verification_recorded,
  lean_runtime_stopped, artifact_registered, formal_trace_sealed, evaluation_transition_rejected,
  controller_started, controller_stopped, controller_crashed, worker_task_claimed,
  worker_task_dispatch_planned, worker_task_completed, worker_task_failed, worker_task_interrupted,
}
use aizim.Schema.{
  PayloadCodec, codec_of, integer_payload, positive_integer, sha256_payload, truth_payload, enum,
  is_controller_provider_id,
}

-- `extend`
unfoldable pub orchestration_codec : EventType → Option PayloadCodec
orchestration_codec controller_configured = some (
    codec_of ("controller_id" ∷ "provider" ∷ []) ("model" ∷ [])
      (("provider", is_controller_provider_id) ∷ []))
orchestration_codec worker_configured = some (codec_of ("worker_id" ∷ "role" ∷ "status" ∷ []) [] [])
orchestration_codec worker_task_assigned = some (
    codec_of
      ("assignment_id" ∷ "controller_id" ∷ "worker_id" ∷ "task" ∷ "task_hash" ∷ "task_version" ∷ [])
      []
      (("assignment_id", sha256_payload)
        ∷ ("task_hash", sha256_payload)
        ∷ ("task_version", positive_integer)
        ∷ []))
orchestration_codec schedule_proposed =
    some (codec_of ("directive_id" ∷ "worker_id" ∷ "execution_id" ∷ []) ("role" ∷ []) [])
orchestration_codec worker_cursor_saved = some (
    codec_of
      ("directive_id" ∷ "worker_id" ∷ "execution_id" ∷ "last_event_sequence" ∷ "remaining_budget"
        ∷ "terminal" ∷ [])
      ("last_acknowledged_delta" ∷ "lease_id" ∷ "document_id" ∷ "document_version" ∷ "base_epoch"
        ∷ "knowledge_epoch" ∷ [])
      (("last_event_sequence", integer_payload)
        ∷ ("remaining_budget", integer_payload)
        ∷ ("terminal", truth_payload)
        ∷ ("document_version", integer_payload)
        ∷ ("base_epoch", sha256_payload)
        ∷ ("knowledge_epoch", integer_payload)
        ∷ []))
orchestration_codec worker_timed_out =
    some (codec_of ("worker_id" ∷ "execution_id" ∷ []) ("reason_code" ∷ []) [])
orchestration_codec agent_run_completed = some (
    codec_of
      ("worker_id" ∷ "execution_id" ∷ "status" ∷ "transport_event_hash" ∷ "final_message_hash"
        ∷ "exit_code" ∷ [])
      ("policy_hash" ∷ [])
      (("transport_event_hash", sha256_payload)
        ∷ ("final_message_hash", sha256_payload)
        ∷ ("exit_code", integer_payload)
        ∷ ("policy_hash", sha256_payload)
        ∷ []))
orchestration_codec promotion_verification_recorded = some (
    codec_of
      ("contribution_id" ∷ "diagnostics_hash" ∷ "diagnostics_verdict" ∷ "build_hash"
        ∷ "build_verdict" ∷ "axiom_verification_hash" ∷ "axiom_verification_verdict" ∷ [])
      ("source_scan_hash" ∷ "source_scan_verdict" ∷ [])
      (("diagnostics_hash", sha256_payload)
        ∷ ("build_hash", sha256_payload)
        ∷ ("axiom_verification_hash", sha256_payload)
        ∷ ("source_scan_hash", sha256_payload)
        ∷ []))
orchestration_codec lean_runtime_stopped = some (codec_of ("runtime_id" ∷ []) [] [])
orchestration_codec artifact_registered = some (
    codec_of
      ("artifact_name" ∷ "content_hash" ∷ "relative_path" ∷ "media_type" ∷ "byte_length" ∷ []) []
      (("content_hash", sha256_payload) ∷ ("byte_length", integer_payload) ∷ []))
orchestration_codec formal_trace_sealed = some (codec_of ("cutoff_kind" ∷ []) [] [])
orchestration_codec evaluation_transition_rejected = some (
    codec_of ("field" ∷ "requested_hash" ∷ "reason_code" ∷ []) []
      (("requested_hash", sha256_payload) ∷ []))
orchestration_codec controller_started = some (
    codec_of
      ("controller_id" ∷ "controller_session_id" ∷ "controller_version" ∷ "provider"
        ∷ "backend_version" ∷ "executable_hash" ∷ [])
      []
      (("controller_version", positive_integer)
        ∷ ("provider", is_controller_provider_id)
        ∷ ("executable_hash", sha256_payload)
        ∷ []))
orchestration_codec controller_stopped = some (
    codec_of ("controller_id" ∷ "controller_session_id" ∷ "reason_code" ∷ []) [] (
      (
        "reason_code",
        enum (
            "OPERATOR_SIGNAL" ∷ "PREFLIGHT_FAILED" ∷ "RESEARCH_IDLE" ∷ "TIME_LIMIT"
            ∷ "CONTROLLER_FAILED" ∷ []),
      )
      ∷ []))
orchestration_codec controller_crashed = some (
    codec_of ("controller_id" ∷ "controller_session_id" ∷ "reason_code" ∷ []) []
      (("reason_code", enum ("UNCLEAN_SHUTDOWN" ∷ [])) ∷ []))
orchestration_codec worker_task_claimed = some (
    codec_of
      ("assignment_id" ∷ "controller_id" ∷ "controller_session_id" ∷ "controller_version"
        ∷ "worker_id" ∷ "task_version" ∷ "execution_id" ∷ [])
      []
      (("assignment_id", sha256_payload)
        ∷ ("controller_version", positive_integer)
        ∷ ("task_version", positive_integer)
        ∷ []))
orchestration_codec worker_task_dispatch_planned = some (
    codec_of
      ("assignment_id" ∷ "execution_id" ∷ "directive_id" ∷ "directive_artifact_hash"
        ∷ "instruction_hash" ∷ "budget" ∷ "timeout_milliseconds" ∷ [])
      []
      (("assignment_id", sha256_payload)
        ∷ ("directive_artifact_hash", sha256_payload)
        ∷ ("instruction_hash", sha256_payload)
        ∷ ("budget", positive_integer)
        ∷ ("timeout_milliseconds", positive_integer)
        ∷ []))
orchestration_codec worker_task_completed = some (
    codec_of ("assignment_id" ∷ "execution_id" ∷ "result_hash" ∷ []) []
      (("assignment_id", sha256_payload) ∷ ("result_hash", sha256_payload) ∷ []))
orchestration_codec worker_task_failed = some (
    codec_of ("assignment_id" ∷ "execution_id" ∷ "reason_code" ∷ []) [] (
      ("assignment_id", sha256_payload)
      ∷ (
        "reason_code",
        enum (
            "CONTROLLER_BLOCKED" ∷ "CONTROLLER_REJECTED" ∷ "CONTROLLER_DECISION_INVALID"
            ∷ "CONTROLLER_TIMEOUT" ∷ "WORKER_FAILED" ∷ "WORKER_ROLE_UNSUPPORTED"
            ∷ "FORMAL_TARGET_REQUIRED" ∷ []),
      )
      ∷ []))
orchestration_codec worker_task_interrupted = some (
    codec_of ("assignment_id" ∷ "execution_id" ∷ "reason_code" ∷ []) [] (
      ("assignment_id", sha256_payload)
      ∷ ("reason_code", enum ("OPERATOR_SIGNAL" ∷ "CONTROLLER_RESTART" ∷ []))
      ∷ []))
orchestration_codec _ = none
