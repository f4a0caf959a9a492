-- ===== src/Publication/Logs/Openings.antt =====
-- The log of what submits, claims, recovers and rebases.
use aizim.Prelude.{ℕ, ◌≡◌, refl, Bool, true, false, not, Option, none, some, String, arith}
use aizim.Tx.Rules.{Moves}
use aizim.Events.{type_name, EventEnvelope, is_type, contribution_enqueued, contribution_rebased}
use aizim.Database.{PublicationQueueEntry}
use aizim.Store.{Reducer}
use aizim.Publication.{
  EventFactory, enqueue, claim_next, insert_submission, claim_entry, claim_first,
}
use aizim.Publication.Endings.{recover, rebase, recover_entry, may_rebase}
use aizim.Publication.Logs.{
  Grows, IsRoutine, IsRoutineFactory, is_type-IsRoutine, Grows-lift, Grows-bind, Grows-transaction,
  Grows-guard, grows_rules,
}

module _ (reducer : Reducer) (human : String → String → Bool) (event : EventFactory)
    (routine : IsRoutineFactory event) where
  claim_entry-Grows :
      (owner : String) (at : ℕ) (first : Option PublicationQueueEntry)
      → Moves (Grows reducer human) (claim_entry reducer owner at event first)
  unfolding claim_entry
  claim_entry-Grows owner at none = search grows_rules depth 20
  claim_entry-Grows owner at (some c) = search grows_rules depth 20

  claim_first-Grows :
      (owner : String) (at : ℕ) (busy : Bool)
      → Moves (Grows reducer human) (claim_first reducer owner at event busy)
  unfolding claim_first claim_entry
  claim_first-Grows owner at true = search grows_rules depth 20
  claim_first-Grows owner at false = search (grows_rules, claim_entry-Grows) depth 20

  pub claim_next-Grows :
      (owner : String) (at : ℕ) → Moves (Grows reducer human) (claim_next reducer owner at event)
  unfolding claim_next claim_first claim_entry
  claim_next-Grows owner at = search (grows_rules, claim_first-Grows) depth 20

  recover_entry-Grows :
      (owner : String) (now : ℕ) (found : Option PublicationQueueEntry)
      → Moves (Grows reducer human) (recover_entry reducer owner now event found)
  unfolding recover_entry
  recover_entry-Grows owner now none = search grows_rules depth 20
  recover_entry-Grows owner now (some c) = search grows_rules depth 20

  pub recover-Grows :
      (owner : String) (now stale : ℕ)
      → Moves (Grows reducer human) (recover reducer owner now stale event)
  unfolding recover recover_entry
  recover-Grows owner now stale = search (grows_rules, recover_entry-Grows) depth 20

  may_rebase-types :
      (id new_id owner : String) (c : PublicationQueueEntry) (queued_event rebased : EventEnvelope)
      → not (may_rebase reducer id new_id owner c queued_event rebased) ≡ false
      → (is_type queued_event.event_type contribution_enqueued ≡ true)
        × (is_type rebased.event_type contribution_rebased ≡ true)
  may_rebase-types id new_id owner c queued_event rebased h = (ground arith, ground arith)

  pub rebase-Grows :
      (id owner : String) (at : ℕ) (submitted queued_event rebased : EventEnvelope)
      → IsRoutine submitted.event_type
      → Moves
          (Grows reducer human)
          (rebase reducer id owner at submitted queued_event rebased event)
  unfolding rebase type_name
  rebase-Grows id owner at submitted queued_event rebased s = Grows-transaction reducer human _ (
      Grows-bind reducer human _ _ (search grows_rules) (λ c.
        Grows-bind reducer human _ _ (Grows-lift reducer human _) (λ new_id.
          Grows-guard reducer human _ _ _ (λ allowed.
            let (a, b) = may_rebase-types id new_id owner c queued_event rebased allowed in
            let q = is_type-IsRoutine queued_event.event_type contribution_enqueued refl refl a in
            let r = is_type-IsRoutine rebased.event_type contribution_rebased refl refl b in
            search grows_rules depth 20))))

module _ (reducer : Reducer) (human : String → String → Bool) where
  insert_submission-Grows :
      (submitted queued_event : EventEnvelope) (id : String)
      (existing : Option PublicationQueueEntry)
      → IsRoutine submitted.event_type
      → IsRoutine queued_event.event_type
      → Moves (Grows reducer human) (insert_submission reducer submitted queued_event id existing)
  unfolding insert_submission
  insert_submission-Grows submitted queued_event id none p q = search grows_rules depth 20
  insert_submission-Grows submitted queued_event id (some e) p q = search grows_rules depth 20

  pub enqueue-Grows :
      (submitted queued_event : EventEnvelope)
      → IsRoutine submitted.event_type
      → IsRoutine queued_event.event_type
      → Moves (Grows reducer human) (enqueue reducer submitted queued_event)
  unfolding enqueue insert_submission
  enqueue-Grows submitted queued_event p q = search (grows_rules, insert_submission-Grows) depth 20
