-- ===== src/Service/Atomic.antt =====
-- A refused operation of the service changes nothing.
use aizim.Outcome.{Failure, raised}
use aizim.Prelude.{◌≡◌, ℕ, Bool, String}
use aizim.Tx.Atomic.{IsAtomic, atomic_rules}
use aizim.Events.{AppendEventCommand, EventEnvelope, Stamp}
use aizim.Database.{QueueState, CapabilityRecord, Database}
use aizim.Store.{Reducer, append, persist_capability}
use aizim.Publication.{enqueue, claim_next, advance, heartbeat}
use aizim.Publication.Endings.{prepare, publish, fail, recover, rebase}
use aizim.Service.{
  append_event, approve_environment_transition, persist, enqueue_contribution, claim_next_promotion,
  advance_promotion, heartbeat_promotion, prepare_promotion, publish_promotion, fail_promotion,
  recover_expired_promotion, rebase_promotion,
}

module _ (reducer : Reducer) where
  pub append-IsAtomic : (e : EventEnvelope) → IsAtomic (append reducer e)
  unfolding append
  append-IsAtomic e = search atomic_rules

  enqueue-IsAtomic : (e f : EventEnvelope) → IsAtomic (enqueue reducer e f)
  unfolding enqueue
  enqueue-IsAtomic e f = search atomic_rules depth 12

  pub append_event-IsAtomic :
      (s : Stamp) (c : AppendEventCommand) → IsAtomic (append_event reducer s c)
  unfolding append_event
  append_event-IsAtomic s c = search (atomic_rules, append-IsAtomic)

  pub approve-IsAtomic :
      (human : String → String → Bool) (s : Stamp)
      (run reviewer proposal id old new reason : String)
      → IsAtomic
          (approve_environment_transition reducer human s run reviewer proposal id old new reason)
  unfolding approve_environment_transition
  approve-IsAtomic human s run reviewer proposal id old new reason =
      search (atomic_rules, append-IsAtomic) depth 12

  pub persist-IsAtomic :
      (text : ℕ → String) (s : Stamp) (c : CapabilityRecord) → IsAtomic (persist reducer text s c)
  unfolding persist persist_capability
  persist-IsAtomic text s c = search atomic_rules

  pub enqueue_contribution-IsAtomic :
      (s t : Stamp) (c : AppendEventCommand) → IsAtomic (enqueue_contribution reducer s t c)
  unfolding enqueue_contribution
  enqueue_contribution-IsAtomic s t c = search (atomic_rules, enqueue-IsAtomic) depth 12

  pub claim_next_promotion-IsAtomic :
      (s : Stamp) (owner : String) (now : ℕ) → IsAtomic (claim_next_promotion reducer s owner now)
  unfolding claim_next_promotion claim_next
  claim_next_promotion-IsAtomic s owner now = search atomic_rules

  pub advance_promotion-IsAtomic :
      (s : Stamp) (id owner : String) (target : QueueState) (now : ℕ)
      → IsAtomic (advance_promotion reducer s id owner target now)
  unfolding advance_promotion advance
  advance_promotion-IsAtomic s id owner target now = search atomic_rules depth 12

  pub heartbeat_promotion-IsAtomic :
      (s : Stamp) (id owner : String) (now : ℕ)
      → IsAtomic (heartbeat_promotion reducer s id owner now)
  unfolding heartbeat_promotion heartbeat
  heartbeat_promotion-IsAtomic s id owner now = search atomic_rules

  pub prepare_promotion-IsAtomic :
      (s : Stamp) (id owner : String) (c : AppendEventCommand)
      → IsAtomic (prepare_promotion reducer s id owner c)
  unfolding prepare_promotion prepare
  prepare_promotion-IsAtomic s id owner c = search atomic_rules depth 12

  pub publish_promotion-IsAtomic :
      (s t u : Stamp) (id owner : String) (now : ℕ) (c e : AppendEventCommand)
      → IsAtomic (publish_promotion reducer s t u id owner now c e)
  unfolding publish_promotion publish
  publish_promotion-IsAtomic s t u id owner now c e = search atomic_rules depth 12

  pub fail_promotion-IsAtomic :
      (s t : Stamp) (id owner : String) (now : ℕ) (c : AppendEventCommand)
      → IsAtomic (fail_promotion reducer s t id owner now c)
  unfolding fail_promotion fail
  fail_promotion-IsAtomic s t id owner now c = search atomic_rules depth 12

  pub recover_expired_promotion-IsAtomic :
      (s : Stamp) (owner : String) (now timeout : ℕ)
      → IsAtomic (recover_expired_promotion reducer s owner now timeout)
  unfolding recover_expired_promotion recover
  recover_expired_promotion-IsAtomic s owner now timeout = search atomic_rules depth 12

  pub rebase_promotion-IsAtomic :
      (s t u v : Stamp) (id owner : String) (now : ℕ) (c e : AppendEventCommand)
      → IsAtomic (rebase_promotion reducer s t u v id owner now c e)
  unfolding rebase_promotion rebase
  rebase_promotion-IsAtomic s t u v id owner now c e = search atomic_rules depth 12

  -- A publication that is refused, at whichever of its steps, leaves the database as it was.
  pub publish_promotion-refused :
      (s t u : Stamp) (id owner : String) (now : ℕ) (c e : AppendEventCommand) (d d' : Database)
      (x : Failure)
      → publish_promotion reducer s t u id owner now c e d ≡ (raised x, d')
      → d' ≡ d
  publish_promotion-refused s t u id owner now c e d d' x h =
      (publish_promotion-IsAtomic s t u id owner now c e).at d d' x h

  -- A rebase that is refused, at whichever of its steps, leaves the database as it was.
  pub rebase_promotion-refused :
      (s t u v : Stamp) (id owner : String) (now : ℕ) (c e : AppendEventCommand) (d d' : Database)
      (x : Failure)
      → rebase_promotion reducer s t u v id owner now c e d ≡ (raised x, d')
      → d' ≡ d
  rebase_promotion-refused s t u v id owner now c e d d' x h =
      (rebase_promotion-IsAtomic s t u v id owner now c e).at d d' x h
