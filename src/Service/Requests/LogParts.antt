-- ===== src/Service/Requests/LogParts.antt =====
-- Every operation keeps the log replayable and its approvals approved.
use aizim.Prelude.{not, same_text, ℕ, ◌≡◌, refl, sym, Bool, false, String, arith}
use aizim.Tx.Rules.{Moves}
use mathlib.Core.Path.{subst}
use aizim.Events.{
  stamped, is_type, type_name, EventType, contribution_submitted, promotion_prepared,
  promotion_failed, declaration_published, knowledge_delta_published, AppendEventCommand,
  EventEnvelope, Stamp,
}
use aizim.Tokens.{revoke_capability}
use aizim.Database.{CapabilityRecord, Database}
use aizim.Store.{Reducer}
use aizim.Store.Replay.{persist_capability-Extends, revoke_capability-Extends}
use aizim.Store.Replay.Mirror.{persist_capability-append}
use aizim.Publication.Logs.{
  AreApproved, IsRoutine, IsRoutineFactory, is_type-IsRoutine, Grows, Grows-lift, Grows-bind,
  Grows-guard, append-Grows,
}
use aizim.Publication.Logs.Owners.{prepare-Grows, publish-Grows, fail-Grows}
use aizim.Publication.Logs.Openings.{enqueue-Grows, recover-Grows, rebase-Grows}
use aizim.Service.{
  promotion_event, queued_event, append_event, approve_environment_transition, persist,
  enqueue_contribution, prepare_promotion, publish_promotion, fail_promotion,
  recover_expired_promotion, rebase_promotion,
}

pub promotion_event-IsRoutine : (s : Stamp) → IsRoutineFactory (promotion_event s)
unfolding promotion_event stamped is_type type_name
promotion_event-IsRoutine s id state v run owner = record { plain = refl; unapproving = refl }

queued_event-IsRoutine :
    (s : Stamp) (actor : String) (e : EventEnvelope) (id : String)
    → IsRoutine (queued_event s actor e id).event_type
unfolding queued_event stamped is_type type_name
queued_event-IsRoutine s actor e id = record { plain = refl; unapproving = refl }

module _ (reducer : Reducer) (human : String → String → Bool) where
  pub persist-Grows :
      (text : ℕ → String) (s : Stamp) (c : CapabilityRecord)
      → Moves (Grows reducer human) (persist reducer text s c)
  unfolding persist stamped is_type type_name
  persist-Grows text s c = record {
    at = λ d d' x h.
        let (t, appended, same, events) =
          persist_capability-append reducer c _ d d' x refl refl h in
        let step = (append-Grows reducer human _ (λ e. ground arith)).at t d' x appended in
        record {
          replayable = persist_capability-Extends reducer c _ d d' x refl refl h;
          approved = λ a. step.approved (subst (AreApproved human) (sym events) a);
        };
  }

  pub revoke-Grows :
      (k : String) (now : ℕ) (d : Database) → Grows reducer human d (revoke_capability k now d).1
  unfolding revoke_capability
  revoke-Grows k now d = record {
    replayable = revoke_capability-Extends reducer k now d (revoke_capability k now d).1 _ refl;
    approved = λ a. a;
  }

  pub append_event-Grows :
      (s : Stamp) (c : AppendEventCommand) → Moves (Grows reducer human) (append_event reducer s c)
  unfolding append_event stamped
  append_event-Grows s c =
      Grows-guard reducer human _ _ _ (λ n. append-Grows reducer human _ (λ e. ground arith))

  pub approve-Grows :
      (s : Stamp) (run reviewer proposal id old new reason : String)
      → Moves
          (Grows reducer human)
          (approve_environment_transition reducer human s run reviewer proposal id old new reason)
  unfolding approve_environment_transition stamped
  approve-Grows s run reviewer proposal id old new reason =
      Grows-guard reducer human _ _ _ (λ filled.
        Grows-guard reducer human _ _ _
          (λ approved. append-Grows reducer human _ (λ e. (run, refl, ground arith))))

  compared :
      (e : EventEnvelope) (t : EventType)
      → same_text (type_name t) "EnvironmentTransitionApproved" ≡ false
      → same_text (type_name t) "ArtifactRegistered" ≡ false
      → not (is_type e.event_type t) ≡ false
      → IsRoutine e.event_type
  compared e t p q h = is_type-IsRoutine e.event_type t p q (ground arith)

  pub enqueue_contribution-Grows :
      (s t : Stamp) (c : AppendEventCommand)
      → Moves (Grows reducer human) (enqueue_contribution reducer s t c)
  unfolding enqueue_contribution type_name
  enqueue_contribution-Grows s t c = Grows-guard reducer human _ _ _ (λ h.
      let r = compared (stamped s c) contribution_submitted refl refl h in
      Grows-bind reducer human _ _ (Grows-lift reducer human _)
        (λ id. enqueue-Grows reducer human _ _ r (queued_event-IsRoutine t _ _ id)))

  pub prepare_promotion-Grows :
      (s : Stamp) (id owner : String) (c : AppendEventCommand)
      → Moves (Grows reducer human) (prepare_promotion reducer s id owner c)
  unfolding prepare_promotion type_name
  prepare_promotion-Grows s id owner c = Grows-guard reducer human _ _ _ (λ h.
      Grows-guard reducer human _ _ _ (λ i.
        prepare-Grows reducer human id owner _
          (compared (stamped s c) promotion_prepared refl refl h)))

  pub publish_promotion-Grows :
      (s t u : Stamp) (id owner : String) (now : ℕ) (c e : AppendEventCommand)
      → Moves (Grows reducer human) (publish_promotion reducer s t u id owner now c e)
  unfolding publish_promotion type_name
  publish_promotion-Grows s t u id owner now c e = Grows-guard reducer human _ _ _ (λ h.
      Grows-guard reducer human _ _ _ (λ i. Grows-guard reducer human _ _ _ (λ j.
        Grows-guard reducer human _ _ _ (λ k.
          publish-Grows reducer human _ (promotion_event-IsRoutine u) id owner now _ _
            (compared (stamped s c) declaration_published refl refl h)
            (compared (stamped t e) knowledge_delta_published refl refl i)))))

  pub fail_promotion-Grows :
      (s t : Stamp) (id owner : String) (now : ℕ) (c : AppendEventCommand)
      → Moves (Grows reducer human) (fail_promotion reducer s t id owner now c)
  unfolding fail_promotion type_name
  fail_promotion-Grows s t id owner now c = Grows-guard reducer human _ _ _ (λ h.
      Grows-guard reducer human _ _ _ (λ i.
        fail-Grows reducer human _ (promotion_event-IsRoutine t) id owner now _
          (compared (stamped s c) promotion_failed refl refl h)))

  pub recover_expired-Grows :
      (s : Stamp) (owner : String) (now timeout : ℕ)
      → Moves (Grows reducer human) (recover_expired_promotion reducer s owner now timeout)
  unfolding recover_expired_promotion
  recover_expired-Grows s owner now timeout =
      Grows-guard reducer human _ _ _
        (λ h. recover-Grows reducer human _ (promotion_event-IsRoutine s) owner now _)

  pub rebase_promotion-Grows :
      (s t u v : Stamp) (id owner : String) (now : ℕ) (c e : AppendEventCommand)
      → Moves (Grows reducer human) (rebase_promotion reducer s t u v id owner now c e)
  unfolding rebase_promotion type_name
  rebase_promotion-Grows s t u v id owner now c e = Grows-guard reducer human _ _ _ (λ h.
      Grows-bind reducer human _ _ (Grows-lift reducer human _) (λ new_id.
        rebase-Grows reducer human _ (promotion_event-IsRoutine v) id owner now _ _ _
          (compared (stamped s c) contribution_submitted refl refl h)))
