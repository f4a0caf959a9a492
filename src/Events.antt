-- ===== src/Events.antt =====
-- Events (state/events.py) and the codes of their types (state/reducers.py, `_EVENT_PROJECTION`).
-- A type that the codecs of state/schema_v1.py do not know is refused when an envelope is built, so
-- the types are an enumeration. Times are UTC, in microseconds.
use aizim.Prelude.{ℕ, Bool, Option, String, same_text}
use aizim.Json.{JsonObject}

pub data EventType : Type 0 where
  research_record_updated project_initialized run_created run_completed run_aborted
        artifact_registered formal_trace_sealed evaluation_transition_rejected schedule_proposed
        controller_configured worker_registered worker_configured worker_task_assigned
        worker_started worker_stopped worker_crashed worker_timed_out agent_run_completed
        worker_cursor_saved capability_minted capability_denied sandbox_probe_started
        sandbox_probe_denied sandbox_probe_passed sandbox_probe_failed lease_granted lease_released
        lease_recovered document_edit_prepared document_edited document_edit_recovered
        formal_action_recorded contribution_submitted contribution_rebased contribution_enqueued
        promotion_state_changed promotion_prepared promotion_verification_recorded promotion_failed
        declaration_published knowledge_delta_published knowledge_delta_acknowledged
        lean_runtime_started lean_runtime_crashed lean_runtime_restarted lean_runtime_stopped
        environment_transition_proposed environment_transition_approved
        environment_transition_rejected alignment_reviewed intervention_recorded controller_started
        controller_stopped controller_crashed worker_task_claimed worker_task_dispatch_planned
        worker_task_completed worker_task_failed worker_task_interrupted :
      EventType

-- The text of a type, which the projections keep.
unfoldable pub type_name : EventType → String
type_name research_record_updated = "ResearchRecordUpdated"
type_name project_initialized = "ProjectInitialized"
type_name run_created = "RunCreated"
type_name run_completed = "RunCompleted"
type_name run_aborted = "RunAborted"
type_name artifact_registered = "ArtifactRegistered"
type_name formal_trace_sealed = "FormalTraceSealed"
type_name evaluation_transition_rejected = "EvaluationTransitionRejected"
type_name schedule_proposed = "ScheduleProposed"
type_name controller_configured = "ControllerConfigured"
type_name worker_registered = "WorkerRegistered"
type_name worker_configured = "WorkerConfigured"
type_name worker_task_assigned = "WorkerTaskAssigned"
type_name worker_started = "WorkerStarted"
type_name worker_stopped = "WorkerStopped"
type_name worker_crashed = "WorkerCrashed"
type_name worker_timed_out = "WorkerTimedOut"
type_name agent_run_completed = "AgentRunCompleted"
type_name worker_cursor_saved = "WorkerCursorSaved"
type_name capability_minted = "CapabilityMinted"
type_name capability_denied = "CapabilityDenied"
type_name sandbox_probe_started = "SandboxProbeStarted"
type_name sandbox_probe_denied = "SandboxProbeDenied"
type_name sandbox_probe_passed = "SandboxProbePassed"
type_name sandbox_probe_failed = "SandboxProbeFailed"
type_name lease_granted = "LeaseGranted"
type_name lease_released = "LeaseReleased"
type_name lease_recovered = "LeaseRecovered"
type_name document_edit_prepared = "DocumentEditPrepared"
type_name document_edited = "DocumentEdited"
type_name document_edit_recovered = "DocumentEditRecovered"
type_name formal_action_recorded = "FormalActionRecorded"
type_name contribution_submitted = "ContributionSubmitted"
type_name contribution_rebased = "ContributionRebased"
type_name contribution_enqueued = "ContributionEnqueued"
type_name promotion_state_changed = "PromotionStateChanged"
type_name promotion_prepared = "PromotionPrepared"
type_name promotion_verification_recorded = "PromotionVerificationRecorded"
type_name promotion_failed = "PromotionFailed"
type_name declaration_published = "DeclarationPublished"
type_name knowledge_delta_published = "KnowledgeDeltaPublished"
type_name knowledge_delta_acknowledged = "KnowledgeDeltaAcknowledged"
type_name lean_runtime_started = "LeanRuntimeStarted"
type_name lean_runtime_crashed = "LeanRuntimeCrashed"
type_name lean_runtime_restarted = "LeanRuntimeRestarted"
type_name lean_runtime_stopped = "LeanRuntimeStopped"
type_name environment_transition_proposed = "EnvironmentTransitionProposed"
type_name environment_transition_approved = "EnvironmentTransitionApproved"
type_name environment_transition_rejected = "EnvironmentTransitionRejected"
type_name alignment_reviewed = "AlignmentReviewed"
type_name intervention_recorded = "InterventionRecorded"
type_name controller_started = "ControllerStarted"
type_name controller_stopped = "ControllerStopped"
type_name controller_crashed = "ControllerCrashed"
type_name worker_task_claimed = "WorkerTaskClaimed"
type_name worker_task_dispatch_planned = "WorkerTaskDispatchPlanned"
type_name worker_task_completed = "WorkerTaskCompleted"
type_name worker_task_failed = "WorkerTaskFailed"
type_name worker_task_interrupted = "WorkerTaskInterrupted"

-- `event.event_type == "..."`
unfoldable pub is_type : EventType → EventType → Bool
unfolding type_name
is_type a b = same_text (type_name a) (type_name b)

abbrev pub event_schema_version : ℕ
event_schema_version = 1

pub record EventEnvelope : Type 0 where
  pub event_id : String
  pub schema_version : ℕ
  pub event_type : EventType
  pub occurred_at : ℕ
  pub actor : String
  pub run_id : Option String
  pub causation_id : Option String
  pub payload : JsonObject

-- A row of the table of events, as `query_events` returns it.
pub record EventRecord : Type 0 where
  pub sequence : ℕ
  pub envelope : EventEnvelope

-- An event before the service stamps it (state/operations.py, `AppendEventCommand`).
pub record AppendEventCommand : Type 0 where
  pub event_type : EventType
  pub actor : String
  pub run_id : Option String
  pub causation_id : Option String
  pub payload : JsonObject

-- What the clock and the identifier factory hand out for one event.
pub record Stamp : Type 0 where
  pub event_id : String
  pub now : ℕ

-- `StateService._event`
unfoldable pub stamped : Stamp → AppendEventCommand → EventEnvelope
stamped s c = record {
  event_id = s.event_id;
  schema_version = event_schema_version;
  event_type = c.event_type;
  occurred_at = s.now;
  actor = c.actor;
  run_id = c.run_id;
  causation_id = c.causation_id;
  payload = c.payload;
}
