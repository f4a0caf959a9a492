-- ===== src/Service/Requests/Queue.antt =====
-- Every request takes steps of the queue's relation.
use aizim.Queue.{find_entry}
use aizim.Queue.Steps.Rows.{IsLater, QueueSteps-IsLater}
use aizim.Prelude.{some, ℕ, ◌≡◌, Bool, String, List, [], ◌∷◌, arith}
use aizim.Tx.{Tx, pure, gets, ◌>>=◌, ◌>>◌}
use aizim.Tx.Rules.{Moves, transaction-inv, rename_failure-inv}
use aizim.Tx.Atomic.{atomic_moves, IsAtomic}
use aizim.Events.{AppendEventCommand, EventEnvelope, Stamp}
use aizim.Artifacts.{register_artifact}
use aizim.Tokens.{insert_capability, revoke_capability, revoke_lease_capabilities}
use aizim.Database.{CapabilityRecord, PublicationQueueEntry, Database}
use aizim.Store.{Reducer, append, persist_capability, apply_event_mutation}
use aizim.Queue.Steps.{done, table}
use aizim.Queue.Steps.WellFormed.{IsWellFormed, QueueSteps-IsWellFormed}
use aizim.Publication.Keeps.{
  SameTable, mutation_rules, apply_event_mutation-SameTable, append_within-SameTable,
}
use aizim.Publication.Steps.{Progress, Progress-refl, Progress-trans, Moves-same}
use aizim.Publication.Steps.Rules.{progress_rules}
use aizim.Publication.Steps.Owners.{
  heartbeat-Moves, advance-Moves, prepare-Moves, publish-Moves, fail-Moves,
}
use aizim.Publication.Steps.Openings.{enqueue-Moves, claim_next-Moves, recover-Moves, rebase-Moves}
use aizim.Documents.{Formats}
use aizim.Documents.Calls.{after_call-moves}
use aizim.Service.{
  append_event, approve_environment_transition, persist, enqueue_contribution, claim_next_promotion,
  advance_promotion, heartbeat_promotion, prepare_promotion, publish_promotion, fail_promotion,
  recover_expired_promotion, rebase_promotion,
}
use aizim.Service.Atomic.{
  append_event-IsAtomic, approve-IsAtomic, persist-IsAtomic, enqueue_contribution-IsAtomic,
  claim_next_promotion-IsAtomic, advance_promotion-IsAtomic, heartbeat_promotion-IsAtomic,
  prepare_promotion-IsAtomic, publish_promotion-IsAtomic, fail_promotion-IsAtomic,
  recover_expired_promotion-IsAtomic, rebase_promotion-IsAtomic,
}
use aizim.Service.Requests.{
  Request, append_request, approve_request, persist_request, revoke_request, enqueue_request,
  claim_request, advance_request, heartbeat_request, prepare_request, publish_request, fail_request,
  recover_request, rebase_request, document_request, serve, serve_all,
}

register_artifact-SameTable : (e : EventEnvelope) → Moves SameTable (register_artifact e)
unfolding register_artifact
register_artifact-SameTable e = record { at = λ d d' n h. ground arith }

insert_capability-SameTable : (c : CapabilityRecord) → Moves SameTable (insert_capability c)
unfolding insert_capability
insert_capability-SameTable c = record { at = λ d d' n h. ground arith }

append-SameTable : (reducer : Reducer) (e : EventEnvelope) → Moves SameTable (append reducer e)
unfolding append
append-SameTable reducer e = record {
  at = λ d d' x h. body.at d d' x (transaction-inv _ (rename_failure-inv _ _ h));
}
  where
    body : Moves SameTable (do
      snapshots ← gets (λ d. d.projections)
      appended ← apply_event_mutation reducer e snapshots
      register_artifact e
      revoke_lease_capabilities e
      pure appended)
    body =
        search (mutation_rules, apply_event_mutation-SameTable, register_artifact-SameTable) depth
          12

append-Progress : (reducer : Reducer) (e : EventEnvelope) → Moves Progress (append reducer e)
append-Progress reducer e = Moves-same _ (append-SameTable reducer e)

persist-Progress :
    (reducer : Reducer) (text : ℕ → String) (s : Stamp) (c : CapabilityRecord)
    → Moves Progress (persist reducer text s c)
unfolding persist persist_capability
persist-Progress reducer text s c =
    Moves-same _ (record {
      at = λ d d' x h. (body _).at d d' x (transaction-inv _ (rename_failure-inv _ _ h));
    })
  where
    body :
        (e : EventEnvelope)
        → Moves SameTable (do
          insert_capability c
          snapshots ← gets (λ d. d.projections)
          apply_event_mutation reducer e snapshots)
    body e =
        search (mutation_rules, apply_event_mutation-SameTable, insert_capability-SameTable) depth
          12

run :
    {A : Type 0} {m : Tx Database A}
    → IsAtomic m
    → Moves Progress m
    → (d : Database) → Progress d (m d).1
run k moves d = atomic_moves Progress Progress-refl _ k moves d

module _ (reducer : Reducer) (human : String → String → Bool) (formats : Formats) where
  revoke-Progress : (k : String) (now : ℕ) (d : Database) → Progress d (revoke_capability k now d).1
  unfolding revoke_capability
  revoke-Progress k now d = done

  append_event-Progress :
      (s : Stamp) (c : AppendEventCommand) → Moves Progress (append_event reducer s c)
  unfolding append_event
  append_event-Progress s c = search (progress_rules, append-Progress) depth 12

  approve-Progress :
      (s : Stamp) (run reviewer proposal id old new reason : String)
      → Moves Progress
          (approve_environment_transition reducer human s run reviewer proposal id old new reason)
  unfolding approve_environment_transition
  approve-Progress s run reviewer proposal id old new reason =
      search (progress_rules, append-Progress) depth 12

  enqueue_contribution-Progress :
      (s t : Stamp) (c : AppendEventCommand) → Moves Progress (enqueue_contribution reducer s t c)
  unfolding enqueue_contribution
  enqueue_contribution-Progress s t c = search (progress_rules, enqueue-Moves) depth 12

  prepare_promotion-Progress :
      (s : Stamp) (id owner : String) (c : AppendEventCommand)
      → Moves Progress (prepare_promotion reducer s id owner c)
  unfolding prepare_promotion
  prepare_promotion-Progress s id owner c = search (progress_rules, prepare-Moves) depth 12

  publish_promotion-Progress :
      (s t u : Stamp) (id owner : String) (now : ℕ) (c e : AppendEventCommand)
      → Moves Progress (publish_promotion reducer s t u id owner now c e)
  unfolding publish_promotion
  publish_promotion-Progress s t u id owner now c e =
      search (progress_rules, publish-Moves) depth 14

  fail_promotion-Progress :
      (s t : Stamp) (id owner : String) (now : ℕ) (c : AppendEventCommand)
      → Moves Progress (fail_promotion reducer s t id owner now c)
  unfolding fail_promotion
  fail_promotion-Progress s t id owner now c = search (progress_rules, fail-Moves) depth 12

  recover_expired-Progress :
      (s : Stamp) (owner : String) (now timeout : ℕ)
      → Moves Progress (recover_expired_promotion reducer s owner now timeout)
  unfolding recover_expired_promotion
  recover_expired-Progress s owner now timeout = search (progress_rules, recover-Moves) depth 12

  rebase_promotion-Progress :
      (s t u v : Stamp) (id owner : String) (now : ℕ) (c e : AppendEventCommand)
      → Moves Progress (rebase_promotion reducer s t u v id owner now c e)
  unfolding rebase_promotion
  rebase_promotion-Progress s t u v id owner now c e =
      search (progress_rules, rebase-Moves) depth 12

  -- A request takes the queue through steps of its relation, whatever the outcome.
  pub serve-Progress : (r : Request) (d : Database) → Progress d (serve reducer human formats r d)
  unfolding serve claim_next_promotion advance_promotion heartbeat_promotion
  serve-Progress (append_request s c) =
      run (append_event-IsAtomic reducer s c) (append_event-Progress s c)
  serve-Progress (approve_request s a b c e f g h) =
      run (approve-IsAtomic reducer human s a b c e f g h) (approve-Progress s a b c e f g h)
  serve-Progress (persist_request s c) =
      run (persist-IsAtomic reducer formats.canonical_timestamp s c)
        (persist-Progress reducer formats.canonical_timestamp s c)
  serve-Progress (revoke_request k now) = revoke-Progress k now
  serve-Progress (enqueue_request s t c) =
      run (enqueue_contribution-IsAtomic reducer s t c) (enqueue_contribution-Progress s t c)
  serve-Progress (claim_request s owner now) =
      run (claim_next_promotion-IsAtomic reducer s owner now) (claim_next-Moves reducer owner now _)
  serve-Progress (advance_request s id owner target now) =
      run (advance_promotion-IsAtomic reducer s id owner target now)
        (advance-Moves reducer id owner target now _)
  serve-Progress (heartbeat_request s id owner now) =
      run (heartbeat_promotion-IsAtomic reducer s id owner now)
        (heartbeat-Moves reducer id owner now _)
  serve-Progress (prepare_request s id owner c) =
      run (prepare_promotion-IsAtomic reducer s id owner c)
        (prepare_promotion-Progress s id owner c)
  serve-Progress (publish_request s t u id owner now c e) =
      run (publish_promotion-IsAtomic reducer s t u id owner now c e)
        (publish_promotion-Progress s t u id owner now c e)
  serve-Progress (fail_request s t id owner now c) =
      run (fail_promotion-IsAtomic reducer s t id owner now c)
        (fail_promotion-Progress s t id owner now c)
  serve-Progress (recover_request s owner now timeout) =
      run (recover_expired_promotion-IsAtomic reducer s owner now timeout)
        (recover_expired-Progress s owner now timeout)
  serve-Progress (rebase_request s t u v id owner now c e) =
      run (rebase_promotion-IsAtomic reducer s t u v id owner now c e)
        (rebase_promotion-Progress s t u v id owner now c e)
  serve-Progress (document_request c) =
      after_call-moves formats reducer Progress Progress-refl Progress-trans
        (λ e routine. Moves-same _ (append_within-SameTable reducer e)) c

  pub serve_all-Progress :
      (rs : List Request) (d : Database) → Progress d (serve_all reducer human formats rs d)
  unfolding serve_all
  serve_all-Progress [] d = done
  serve_all-Progress (r ∷ rs) d =
      let next = serve reducer human formats r d in
      Progress-trans d next (serve_all reducer human formats rs next) (serve-Progress r d)
        (serve_all-Progress rs next)

  -- Any requests, answered or refused, leave a well-formed queue well-formed: one row for each
  -- contribution, rising sequences, rows that wait unclaimed at version 0 or were claimed, and at
  -- most one promotion in progress.
  pub serve_all-IsWellFormed :
      (rs : List Request) (d : Database)
      → IsWellFormed (table d)
      → IsWellFormed (table (serve_all reducer human formats rs d))
  serve_all-IsWellFormed rs d w = QueueSteps-IsWellFormed _ _ (serve_all-Progress rs d) w

  -- Through any requests a contribution of a well-formed queue keeps its row, its sequence and the
  -- stage that it has reached; the row is unchanged, or it had not ended and has a higher version.
  pub serve_all-IsLater :
      (rs : List Request) (d : Database) (k : String) (e : PublicationQueueEntry)
      → IsWellFormed (table d)
      → find_entry k d.publication_queue ≡ some e
      → (f : PublicationQueueEntry) × (find_entry k
            (serve_all reducer human formats rs d).publication_queue
          ≡ some f)
        × IsLater e f
  serve_all-IsLater rs d k e w h = QueueSteps-IsLater _ _ k e (serve_all-Progress rs d) w h
