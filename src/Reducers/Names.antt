-- ===== src/Reducers/Names.antt =====
-- Every event type has a projection name that the store accepts.
use aizim.Prelude.{◌≡◌, refl, true}
use aizim.Projections.{is_registered}
use aizim.Events.{
  EventType, research_record_updated, project_initialized, run_created, run_completed, run_aborted,
  artifact_registered, formal_trace_sealed, evaluation_transition_rejected, schedule_proposed,
  controller_configured, worker_registered, worker_configured, worker_task_assigned, worker_started,
  worker_stopped, worker_crashed, worker_timed_out, agent_run_completed, worker_cursor_saved,
  capability_minted, capability_denied, sandbox_probe_started, sandbox_probe_denied,
  sandbox_probe_passed, sandbox_probe_failed, lease_granted, lease_released, lease_recovered,
  document_edit_prepared, document_edited, document_edit_recovered, formal_action_recorded,
  contribution_submitted, contribution_rebased, contribution_enqueued, promotion_state_changed,
  promotion_prepared, promotion_verification_recorded, promotion_failed, declaration_published,
  knowledge_delta_published, knowledge_delta_acknowledged, lean_runtime_started,
  lean_runtime_crashed, lean_runtime_restarted, lean_runtime_stopped,
  environment_transition_proposed, environment_transition_approved, environment_transition_rejected,
  alignment_reviewed, intervention_recorded, controller_started, controller_stopped,
  controller_crashed, worker_task_claimed, worker_task_dispatch_planned, worker_task_completed,
  worker_task_failed, worker_task_interrupted,
}
use aizim.Reducers.{event_projection}

pub event_projection-registered : (t : EventType) → is_registered (event_projection t) ≡ true
unfolding event_projection is_registered
event_projection-registered research_record_updated = refl
event_projection-registered project_initialized = refl
event_projection-registered run_created = refl
event_projection-registered run_completed = refl
event_projection-registered run_aborted = refl
event_projection-registered artifact_registered = refl
event_projection-registered formal_trace_sealed = refl
event_projection-registered evaluation_transition_rejected = refl
event_projection-registered schedule_proposed = refl
event_projection-registered controller_configured = refl
event_projection-registered worker_registered = refl
event_projection-registered worker_configured = refl
event_projection-registered worker_task_assigned = refl
event_projection-registered worker_started = refl
event_projection-registered worker_stopped = refl
event_projection-registered worker_crashed = refl
event_projection-registered worker_timed_out = refl
event_projection-registered agent_run_completed = refl
event_projection-registered worker_cursor_saved = refl
event_projection-registered capability_minted = refl
event_projection-registered capability_denied = refl
event_projection-registered sandbox_probe_started = refl
event_projection-registered sandbox_probe_denied = refl
event_projection-registered sandbox_probe_passed = refl
event_projection-registered sandbox_probe_failed = refl
event_projection-registered lease_granted = refl
event_projection-registered lease_released = refl
event_projection-registered lease_recovered = refl
event_projection-registered document_edit_prepared = refl
event_projection-registered document_edited = refl
event_projection-registered document_edit_recovered = refl
event_projection-registered formal_action_recorded = refl
event_projection-registered contribution_submitted = refl
event_projection-registered contribution_rebased = refl
event_projection-registered contribution_enqueued = refl
event_projection-registered promotion_state_changed = refl
event_projection-registered promotion_prepared = refl
event_projection-registered promotion_verification_recorded = refl
event_projection-registered promotion_failed = refl
event_projection-registered declaration_published = refl
event_projection-registered knowledge_delta_published = refl
event_projection-registered knowledge_delta_acknowledged = refl
event_projection-registered lean_runtime_started = refl
event_projection-registered lean_runtime_crashed = refl
event_projection-registered lean_runtime_restarted = refl
event_projection-registered lean_runtime_stopped = refl
event_projection-registered environment_transition_proposed = refl
event_projection-registered environment_transition_approved = refl
event_projection-registered environment_transition_rejected = refl
event_projection-registered alignment_reviewed = refl
event_projection-registered intervention_recorded = refl
event_projection-registered controller_started = refl
event_projection-registered controller_stopped = refl
event_projection-registered controller_crashed = refl
event_projection-registered worker_task_claimed = refl
event_projection-registered worker_task_dispatch_planned = refl
event_projection-registered worker_task_completed = refl
event_projection-registered worker_task_failed = refl
event_projection-registered worker_task_interrupted = refl
