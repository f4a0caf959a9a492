-- ===== src/Publication.antt =====
-- The transactions on the publication queue (state/store_publication.py,
-- state/store_publication_lease.py, state/store_publication_prepare.py and
-- state/store_publication_methods.py), over any reducer. Times are UTC, in microseconds.
pub mod Endings
pub mod Keeps
pub mod Logs
pub mod Queries
pub mod Requirements
pub mod Steps
use aizim.Prelude.{
  ℕ, ◌+◌, Bool, true, false, ◌&&◌, ◌||◌, not, Option, none, some, List, [], ◌∷◌, ◌++◌, String,
  same_text, same_text?, is_some, ◌==◌, if◌then◌else◌,
}
use aizim.Outcome.{Failure, Outcome, ok, raised, value_error}
use aizim.Tx.{Tx, pure, raise, lift, gets, transaction, refuse_if, ◌>>=◌, ◌>>◌}
use aizim.Json.{JsonObject, JsonValue, end, field, get, get_text, object_eq, as_text}
use aizim.Events.{
  EventEnvelope, EventRecord, is_type, contribution_submitted, contribution_enqueued,
  contribution_rebased, promotion_prepared,
}
use aizim.Database.{
  QueueState, queued, staged, published, quarantined, PublicationQueueEntry, Database,
}
use aizim.Store.{Reducer, append_within}
use aizim.Queue.{
  can_transition, in_progress, is_queued, is_materialized, is_published, find_entry, claimed,
  update_rows, row_count, any_active, first_where, is_stale, is_owner, queued_entry,
}

-- `EventFactory`: from a contribution, its state and version, its run and its former owner
abbrev pub EventFactory : Type 0
EventFactory = String → QueueState → ℕ → Option String → Option String → EventEnvelope

-- A text that must be there and not be empty.
required_text : String → Option String → Outcome String
required_text code none = raised (value_error code)
required_text code (some s) = if same_text s "" then raised (value_error code) else ok s

-- `_contribution_id`, with the code of its module
unfoldable pub contribution_id : String → EventEnvelope → Outcome String
unfolding required_text
contribution_id code event = required_text code (get_text "contribution_id" event.payload)

-- `_same_submission`: the run of the first row with the same payload
unfoldable pub same_submission : EventEnvelope → List EventRecord → Bool
same_submission e [] = false
same_submission e (r ∷ rs) =
    if is_type r.envelope.event_type contribution_submitted
      && object_eq r.envelope.payload e.payload
    then same_text? r.envelope.run_id e.run_id
    else same_submission e rs

abbrev pub submits : String → EventEnvelope → Bool
submits id e =
    is_type e.event_type contribution_submitted
    && same_text? (get_text "contribution_id" e.payload) (some id)

-- `_run`
unfoldable pub run_of : String → List EventRecord → Outcome (Option String)
run_of id [] = raised (value_error "PROMOTION_NOT_FOUND")
run_of id (r ∷ rs) = if submits id r.envelope then ok r.envelope.run_id else run_of id rs

-- `_current`
unfoldable pub current_entry : String → Database → Outcome PublicationQueueEntry
current_entry id d = elim (find_entry id d.publication_queue) [
  | none ↦ raised (value_error "PROMOTION_NOT_FOUND")
  | some e ↦ ok e
]

-- `INSERT INTO publication_queue`, with the sequence that it allocates. Both callers have looked the
-- contribution up in the same transaction, so that no row of it is there.
unfoldable pub insert_entry : String → Tx Database PublicationQueueEntry
insert_entry id d = (
  ok (queued_entry id (d.queue_sequence + 1)),
  record d {
    publication_queue = d.publication_queue ++ queued_entry id (d.queue_sequence + 1) ∷ [];
    queue_sequence = d.queue_sequence + 1;
  },
)

-- `PublicationQueueEntry(...)` of a claimed row: `__post_init__` refuses an owner without a name. The
-- row's other columns are in range by their types and by the statements that write them.
unfoldable pub valid_entry : String → PublicationQueueEntry → Outcome PublicationQueueEntry
valid_entry owner e =
    if same_text owner "" then raised (value_error "INVALID_PUBLICATION_ENTRY") else ok e

-- `_update`
unfoldable pub update :
    PublicationQueueEntry → String → ℕ → QueueState → Tx Database PublicationQueueEntry
unfolding valid_entry
update current owner at target d =
    let version = current.state_version + 1 in
    if row_count current d.publication_queue == 1
    then (
      valid_entry owner (claimed version owner at target current),
      record d {
        publication_queue =
            update_rows current (claimed version owner at target) d.publication_queue;
      },
    )
    else (raised (value_error "PROMOTION_CLAIM_DENIED"), d)

-- The value of a computation on the database.
abbrev pub read : {A : Type 0} → (Database → Outcome A) → Tx Database A
read f = gets f >>= lift

module _ (reducer : Reducer) where
  -- The end of most transactions: the entry's change is logged, for the run that submitted it.
  unfoldable pub log_state :
      EventFactory → PublicationQueueEntry → Option String → Tx Database EventRecord
  log_state event e former = do
    run ← read (λ d. run_of e.contribution_id d.events)
    append_within reducer (event e.contribution_id e.state e.state_version run former)

  unfoldable pub insert_submission :
      EventEnvelope
      → EventEnvelope
      → String
      → Option PublicationQueueEntry
      → Tx Database PublicationQueueEntry
  insert_submission submitted queued_event id none = do
    append_within reducer submitted
    e ← insert_entry id
    append_within reducer queued_event
    pure e
  insert_submission submitted queued_event id (some existing) = do
    known ← gets (λ d. same_submission submitted d.events)
    refuse_if (not known) (value_error "DUPLICATE_CONTRIBUTION_MISMATCH")
    pure existing

  -- `enqueue`
  unfoldable pub enqueue : EventEnvelope → EventEnvelope → Tx Database PublicationQueueEntry
  unfolding insert_submission
  enqueue submitted queued_event = do
    id ← lift (contribution_id "INVALID_CONTRIBUTION_ENQUEUE" submitted)
    refuse_if (not (is_type queued_event.event_type contribution_enqueued))
        (value_error "INVALID_CONTRIBUTION_ENQUEUE")
    queued_id ← lift (contribution_id "INVALID_CONTRIBUTION_ENQUEUE" queued_event)
    refuse_if (not (same_text queued_id id)) (value_error "INVALID_CONTRIBUTION_ENQUEUE")
    transaction (do
      existing ← gets (λ d. find_entry id d.publication_queue)
      insert_submission submitted queued_event id existing)

  unfoldable pub claim_entry :
      String
      → ℕ
      → EventFactory
      → Option PublicationQueueEntry
      → Tx Database (Option PublicationQueueEntry)
  claim_entry owner at event none = pure none
  claim_entry owner at event (some current) = do
    e ← update current owner at staged
    log_state event e none
    pure (some e)

  unfoldable pub claim_first :
      String → ℕ → EventFactory → Bool → Tx Database (Option PublicationQueueEntry)
  unfolding claim_entry
  claim_first owner at event true = pure none
  claim_first owner at event false = do
    first ← gets (λ d. first_where (λ e. is_queued e.state) d.publication_queue)
    claim_entry owner at event first

  -- `claim_next`
  unfoldable pub claim_next : String → ℕ → EventFactory → Tx Database (Option PublicationQueueEntry)
  unfolding claim_first
  claim_next owner at event =
      transaction
        (do busy ← gets (λ d. any_active d.publication_queue); claim_first owner at event busy)

  -- `advance`
  unfoldable pub advance :
      String → String → QueueState → ℕ → EventFactory → Tx Database PublicationQueueEntry
  advance id owner target at event = do
    refuse_if (is_published target) (value_error "PUBLISHED_REQUIRES_PREPARATION")
    transaction (do
      current ← read (current_entry id)
      refuse_if (not (is_owner owner current)) (value_error "PROMOTION_CLAIM_DENIED")
      refuse_if (not (can_transition current.state target))
          (value_error "INVALID_PROMOTION_TRANSITION")
      e ← update current owner at target
      log_state event e none
      pure e)

  -- `heartbeat`
  unfoldable pub heartbeat : String → String → ℕ → EventFactory → Tx Database PublicationQueueEntry
  heartbeat id owner at event = transaction (do
    current ← read (current_entry id)
    refuse_if (not (is_owner owner current) || not (in_progress current.state))
        (value_error "PROMOTION_CLAIM_DENIED")
    e ← update current owner at current.state
    log_state event e none
    pure e)
