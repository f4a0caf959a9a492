-- ===== src/Service.antt =====
-- The operations of the state service (state/service.py, state/promotion_state.py). The identifier
-- and the time of each event are arguments, in the order in which the service draws them.
pub mod Atomic
pub mod Requests
mod Tests
use aizim.Prelude.{
  ℕ, ◌-◌, Bool, true, false, ◌&&◌, ◌||◌, not, Option, none, some, List, [], ◌∷◌, String, same_text,
  same_text?, is_some, ◌==◌, if◌then◌else◌,
}
use aizim.Outcome.{Failure, Outcome, ok, raised, value_error, event_validation_error}
use aizim.Tx.{Tx, pure, raise, lift, gets, refuse_if, ◌>>=◌, ◌>>◌}
use aizim.Json.{
  JsonValue, JsonArray, JsonObject, string, integer, array, nil, cons, end, field, pos, get_text,
  put,
}
use aizim.Events.{
  EventType, EventEnvelope, EventRecord, AppendEventCommand, Stamp, stamped, is_type,
  contribution_submitted, contribution_enqueued, promotion_prepared, promotion_failed,
  promotion_state_changed, declaration_published, knowledge_delta_published, capability_minted,
  environment_transition_approved,
}
use aizim.Database.{
  QueueState, queued, staged, verified, materialized, published, quarantined, PublicationQueueEntry,
  CapabilityRecord, Database,
}
use aizim.Store.{Reducer, append, persist_capability}
use aizim.Publication.{EventFactory, enqueue, claim_next, advance, heartbeat}
use aizim.Publication.Endings.{prepare, publish, fail, recover, rebase}

-- `PublicationQueueState.value`
abbrev pub state_value : QueueState → String
state_value queued = "queued"
state_value staged = "staged"
state_value verified = "verified"
state_value materialized = "materialized"
state_value published = "published"
state_value quarantined = "quarantined"

with_former_owner : Option String → JsonObject → JsonObject
with_former_owner none payload = payload
with_former_owner (some owner) payload = put "former_owner" (string owner) payload

-- `_promotion_event`
unfoldable pub promotion_event : Stamp → EventFactory
unfolding with_former_owner
promotion_event stamp contribution_id state state_version run_id former_owner =
    stamped stamp (record {
      event_type = promotion_state_changed;
      actor = "promotion_service";
      run_id = run_id;
      causation_id = none;
      payload = with_former_owner former_owner (
          field "contribution_id" (string contribution_id) (
            field "state" (string (state_value state))
              (field "state_version" (integer (pos state_version)) end)));
    })

-- The event that a contribution waits, caused by its submission.
unfoldable pub queued_event : Stamp → String → EventEnvelope → String → EventEnvelope
queued_event stamp actor submitted contribution_id = stamped stamp (record {
  event_type = contribution_enqueued;
  actor = actor;
  run_id = submitted.run_id;
  causation_id = some submitted.event_id;
  payload = field "contribution_id" (string contribution_id) (field "state" (string "queued") end);
})

-- `if event.event_type != "...": raise`
abbrev pub require_type : EventType → String → EventEnvelope → Tx Database (Unit {0})
require_type t reason e =
    refuse_if (not (is_type e.event_type t)) (event_validation_error "event_type" reason)

-- `if event.payload.get("contribution_id") != contribution_id: raise`
abbrev pub require_contribution : String → String → EventEnvelope → Tx Database (Unit {0})
require_contribution id reason e =
    refuse_if (not (same_text? (get_text "contribution_id" e.payload) (some id)))
      (event_validation_error "contribution_id" reason)

abbrev pub text_or_raise : Option String → Outcome String
text_or_raise none = raised (event_validation_error "contribution_id" "must be a non-empty string")
text_or_raise (some id) = ok id

abbrev pub filled_text_or_raise : Option String → Outcome String
filled_text_or_raise none =
    raised (event_validation_error "contribution_id" "must be a non-empty string")
filled_text_or_raise (some id) =
    if same_text id ""
    then raised (event_validation_error "contribution_id" "must be a non-empty string")
    else ok id

unfoldable pub texts : List String → JsonArray
texts [] = nil
texts (t ∷ ts) = cons (string t) (texts ts)

abbrev pub with_lease : Option String → JsonObject → JsonObject
with_lease none payload = payload
with_lease (some lease) payload = put "lease_id" (string lease) payload

module _ (reducer : Reducer) where
  -- `append_event`
  unfoldable pub append_event : Stamp → AppendEventCommand → Tx Database EventRecord
  append_event stamp command = do
    refuse_if (is_type command.event_type environment_transition_approved)
        (event_validation_error "event_type" "use approve_environment_transition")
    append reducer (stamped stamp command)

  -- `enqueue_contribution`
  unfoldable pub enqueue_contribution :
      Stamp → Stamp → AppendEventCommand → Tx Database PublicationQueueEntry
  enqueue_contribution stamp queued_stamp command = do
    let submitted = stamped stamp command
    require_type contribution_submitted "must submit a contribution" submitted
    id ← lift (text_or_raise (get_text "contribution_id" submitted.payload))
    enqueue reducer submitted (queued_event queued_stamp "contribution_service" submitted id)

  -- `claim_next_promotion`
  unfoldable pub claim_next_promotion :
      Stamp → String → ℕ → Tx Database (Option PublicationQueueEntry)
  claim_next_promotion stamp owner now = claim_next reducer owner now (promotion_event stamp)

  -- `advance_promotion`
  unfoldable pub advance_promotion :
      Stamp → String → String → QueueState → ℕ → Tx Database PublicationQueueEntry
  advance_promotion stamp id owner target now =
      advance reducer id owner target now (promotion_event stamp)

  -- `heartbeat_promotion`
  unfoldable pub heartbeat_promotion :
      Stamp → String → String → ℕ → Tx Database PublicationQueueEntry
  heartbeat_promotion stamp id owner now = heartbeat reducer id owner now (promotion_event stamp)

  -- `prepare_promotion`
  unfoldable pub prepare_promotion :
      Stamp → String → String → AppendEventCommand → Tx Database PublicationQueueEntry
  prepare_promotion stamp id owner command = do
    let prepared = stamped stamp command
    require_type promotion_prepared "must prepare a promotion" prepared
    require_contribution id "must match the promotion" prepared
    prepare reducer id owner prepared

  -- `publish_promotion`
  unfoldable pub publish_promotion :
      Stamp
      → Stamp
      → Stamp
      → String
      → String
      → ℕ
      → AppendEventCommand
      → AppendEventCommand
      → Tx Database PublicationQueueEntry
  publish_promotion first second stamp id owner now declaration_command delta_command = do
    let declaration = stamped first declaration_command
    let delta = stamped second delta_command
    require_type declaration_published "must publish a declaration" declaration
    require_type knowledge_delta_published "must publish a knowledge delta" delta
    require_contribution id "must match the declaration" declaration
    require_contribution id "must match the delta" delta
    publish reducer id owner now declaration delta (promotion_event stamp)

  -- `fail_promotion`
  unfoldable pub fail_promotion :
      Stamp → Stamp → String → String → ℕ → AppendEventCommand → Tx Database PublicationQueueEntry
  fail_promotion first stamp id owner now command = do
    let failure = stamped first command
    require_type promotion_failed "must record a promotion failure" failure
    require_contribution id "must match the promotion failure" failure
    fail reducer id owner now failure (promotion_event stamp)

  -- `recover_expired_promotion`, with the timeout in microseconds
  unfoldable pub recover_expired_promotion :
      Stamp → String → ℕ → ℕ → Tx Database (Option PublicationQueueEntry)
  recover_expired_promotion stamp owner now claim_timeout = do
    refuse_if (claim_timeout == 0)
        (event_validation_error "claim_timeout" "must be a positive duration")
    recover reducer owner now (now - claim_timeout) (promotion_event stamp)

  -- `rebase_promotion`
  unfoldable pub rebase_promotion :
      Stamp
      → Stamp
      → Stamp
      → Stamp
      → String
      → String
      → ℕ
      → AppendEventCommand
      → AppendEventCommand
      → Tx Database (PublicationQueueEntry × PublicationQueueEntry)
  rebase_promotion first second third stamp id owner now submitted_command rebased_command = do
    let submitted = stamped first submitted_command
    let rebased = stamped second rebased_command
    require_type contribution_submitted "must submit a rebased contribution" submitted
    replacement ← lift (filled_text_or_raise (get_text "contribution_id" submitted.payload))
    rebase reducer id owner now submitted
        (queued_event third "promotion_service" submitted replacement) rebased
        (promotion_event stamp)

  module _ (human_approval : String → String → Bool) where
    -- `approve_environment_transition`
    unfoldable pub approve_environment_transition :
        Stamp
        → String
        → String
        → String
        → String
        → String
        → String
        → String
        → Tx Database EventRecord
    approve_environment_transition stamp run_id reviewer proposal transition_id old_fingerprint
          new_fingerprint reason =
        do
          refuse_if
              (same_text run_id ""
                || same_text reviewer ""
                || same_text proposal ""
                || same_text transition_id ""
                || same_text old_fingerprint ""
                || same_text new_fingerprint ""
                || same_text reason "")
              (event_validation_error "environment_transition" "requires complete approval data")
          refuse_if (not (human_approval run_id reviewer))
              (event_validation_error "reviewer" "is not an authenticated human")
          append reducer (
              stamped stamp (record {
                event_type = environment_transition_approved;
                actor = reviewer;
                run_id = some run_id;
                causation_id = some proposal;
                payload = field "transition_id" (string transition_id) (
                    field "old_fingerprint" (string old_fingerprint) (
                      field "new_fingerprint" (string new_fingerprint)
                        (field "reason" (string reason) (field "reviewer" (string reviewer) end))));
              }))

  module _ (canonical_timestamp : ℕ → String) where
    -- `persist_capability`
    unfoldable pub persist : Stamp → CapabilityRecord → Tx Database EventRecord
    persist stamp capability = persist_capability reducer capability (
        stamped stamp (record {
          event_type = capability_minted;
          actor = "capability_issuer";
          run_id = some capability.run_id;
          causation_id = none;
          payload = with_lease capability.lease_id (
              field "worker_id" (string capability.worker_id) (
                field "role" (string capability.role) (
                  field "operations" (array (texts capability.operations)) (
                    field "expires_at" (string (canonical_timestamp capability.expires_at)) end))));
        }))
