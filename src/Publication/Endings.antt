-- ===== src/Publication/Endings.antt =====
-- Preparation, publication, failure, recovery and rebase (state/store_publication_prepare.py and
-- state/store_publication_methods.py).
use aizim.Prelude.{
  ℕ, Bool, false, ◌&&◌, ◌||◌, not, Option, none, some, List, [], ◌∷◌, String, same_text?, is_some,
  if◌then◌else◌,
}
use aizim.Outcome.{value_error}
use aizim.Tx.{Tx, pure, lift, gets, transaction, refuse_if, ◌>>=◌, ◌>>◌}
use aizim.Json.{JsonObject, JsonValue, null, string, end, field, get, get_text, object_eq}
use aizim.Events.{
  EventEnvelope, EventRecord, is_type, contribution_enqueued, contribution_rebased,
  promotion_prepared,
}
use aizim.Database.{published, quarantined, PublicationQueueEntry, Database}
use aizim.Store.{Reducer, append_within}
use aizim.Queue.{
  can_transition, in_progress, is_materialized, find_entry, first_where, is_stale, is_owner,
}
use aizim.Publication.{
  EventFactory, contribution_id, current_entry, insert_entry, update, read, log_state,
}

abbrev pub prepares : String → EventEnvelope → Bool
prepares id e =
    is_type e.event_type promotion_prepared
    && same_text? (get_text "contribution_id" e.payload) (some id)

-- The payload of the first preparation of a contribution.
unfoldable pub preparation : String → List EventRecord → Option JsonObject
preparation id [] = none
preparation id (r ∷ rs) =
    if prepares id r.envelope then some r.envelope.payload else preparation id rs

-- `payload.get(key)` as the value of an entry: a missing key gives `None`.
abbrev pub value_or_null : Option JsonValue → JsonValue
value_or_null none = null
value_or_null (some v) = v

-- `expected` in `require_prepared`
unfoldable pub expected_preparation : String → JsonObject → JsonObject → JsonObject
expected_preparation id declaration delta = field "contribution_id" (string id) (
    field "module" (value_or_null (get "module" declaration)) (
      field "content_hash" (value_or_null (get "content_hash" declaration)) (
        field "base_epoch" (value_or_null (get "base_epoch" delta)) (
          field "knowledge_epoch" (value_or_null (get "knowledge_epoch" delta)) (
            field "declaration_id" (value_or_null (get "declaration_id" declaration))
              (field "delta_id" (value_or_null (get "delta_id" delta)) end))))))

-- Whether some preparation has exactly this payload.
unfoldable pub has_preparation : JsonObject → List EventRecord → Bool
has_preparation expected [] = false
has_preparation expected (r ∷ rs) =
    is_type r.envelope.event_type promotion_prepared && object_eq expected r.envelope.payload
    || has_preparation expected rs

unfoldable pub require_prepared : String → EventEnvelope → EventEnvelope → Tx Database (Unit {0})
require_prepared id declaration delta = do
  prepared ←
      gets
        (λ d. has_preparation (expected_preparation id declaration.payload delta.payload) d.events)
  refuse_if (not prepared) (value_error "PROMOTION_NOT_PREPARED")

module _ (reducer : Reducer) where
  unfoldable pub prepare_once : EventEnvelope → Option JsonObject → Tx Database (Unit {0})
  prepare_once prepared none = append_within reducer prepared >> pure tt
  prepare_once prepared (some existing) =
      refuse_if (not (object_eq existing prepared.payload))
        (value_error "PROMOTION_PREPARATION_MISMATCH")

  -- `prepare`
  unfoldable pub prepare : String → String → EventEnvelope → Tx Database PublicationQueueEntry
  unfolding prepare_once
  prepare id owner prepared = transaction (do
    current ← read (current_entry id)
    refuse_if (not (is_owner owner current) || not (is_materialized current.state))
        (value_error "INVALID_PROMOTION_TRANSITION")
    refuse_if (not (prepares id prepared)) (value_error "INVALID_PROMOTION_PREPARATION")
    existing ← gets (λ d. preparation id d.events)
    prepare_once prepared existing
    pure current)

  -- `publish_promotion`
  unfoldable pub publish :
      String
      → String
      → ℕ
      → EventEnvelope
      → EventEnvelope
      → EventFactory
      → Tx Database PublicationQueueEntry
  publish id owner at declaration delta event = transaction (do
    current ← read (current_entry id)
    refuse_if (not (is_owner owner current) || not (can_transition current.state published))
        (value_error "INVALID_PROMOTION_TRANSITION")
    require_prepared id declaration delta
    e ← update current owner at published
    append_within reducer declaration
    append_within reducer delta
    append_within reducer (event e.contribution_id e.state e.state_version declaration.run_id none)
    pure e)

  -- `fail_promotion`
  unfoldable pub fail :
      String → String → ℕ → EventEnvelope → EventFactory → Tx Database PublicationQueueEntry
  fail id owner at failure event = transaction (do
    current ← read (current_entry id)
    refuse_if (not (is_owner owner current) || not (can_transition current.state quarantined))
        (value_error "INVALID_PROMOTION_TRANSITION")
    e ← update current owner at quarantined
    append_within reducer failure
    append_within reducer (event e.contribution_id e.state e.state_version failure.run_id none)
    pure e)

  unfoldable pub recover_entry :
      String
      → ℕ
      → EventFactory
      → Option PublicationQueueEntry
      → Tx Database (Option PublicationQueueEntry)
  recover_entry owner now event none = pure none
  recover_entry owner now event (some current) = do
    e ← update current owner now current.state
    log_state reducer event e current.claimed_by
    pure (some e)

  -- `recover_expired_promotion`
  unfoldable pub recover :
      String → ℕ → ℕ → EventFactory → Tx Database (Option PublicationQueueEntry)
  unfolding recover_entry
  recover owner now stale_before event = transaction (do
    stale ← gets (λ d. first_where (is_stale stale_before) d.publication_queue)
    recover_entry owner now event stale)

  -- The condition under which `rebase` goes on, past the identifier of the new submission
  abbrev pub may_rebase :
      String → String → String → PublicationQueueEntry → EventEnvelope → EventEnvelope → Bool
  may_rebase id new_id owner current queued_event rebased =
      is_owner owner current
      && in_progress current.state
      && is_type queued_event.event_type contribution_enqueued
      && same_text? (get_text "contribution_id" queued_event.payload) (some new_id)
      && is_type rebased.event_type contribution_rebased
      && same_text? (get_text "contribution_id" rebased.payload) (some new_id)
      && same_text? (get_text "source_contribution_id" rebased.payload) (some id)

  -- `rebase`
  unfoldable pub rebase :
      String
      → String
      → ℕ
      → EventEnvelope
      → EventEnvelope
      → EventEnvelope
      → EventFactory
      → Tx Database (PublicationQueueEntry × PublicationQueueEntry)
  rebase id owner at submitted queued_event rebased event = transaction (do
    current ← read (current_entry id)
    new_id ← lift (contribution_id "INVALID_PROMOTION_REBASE" submitted)
    refuse_if (not (may_rebase id new_id owner current queued_event rebased))
        (value_error "INVALID_PROMOTION_REBASE")
    taken ← gets (λ d. is_some (find_entry new_id d.publication_queue))
    refuse_if taken (value_error "DUPLICATE_CONTRIBUTION_MISMATCH")
    old ← update current owner at quarantined
    log_state reducer event old none
    append_within reducer submitted
    new ← insert_entry new_id
    append_within reducer queued_event
    append_within reducer rebased
    pure (old, new))
