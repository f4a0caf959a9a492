-- ===== src/Service/Requests/Log.antt =====
-- Every request keeps the log replayable and its approvals approved.
use mathlib.Core.List.{Memᴰ}
use aizim.Prelude.{some, ◌≡◌, Bool, true, String, List, [], ◌∷◌}
use aizim.Outcome.{ok}
use aizim.Tx.{Tx}
use aizim.Tx.Rules.{Moves}
use aizim.Tx.Atomic.{atomic_moves, IsAtomic}
use aizim.Events.{environment_transition_approved, is_type, EventRecord}
use aizim.Database.{Database, initial}
use aizim.Store.{Reducer}
use aizim.Store.{replayed_projections}
use aizim.Store.Replay.{replayed_projections_faithful}
use aizim.Publication.Logs.{AreApproved-row, Grows, Grows-refl, Grows-trans, Grows-append_within}
use aizim.Publication.Logs.Owners.{heartbeat-Grows, advance-Grows}
use aizim.Publication.Logs.Openings.{claim_next-Grows}
use aizim.Documents.{Formats}
use aizim.Documents.Calls.{after_call-moves}
use aizim.Service.{claim_next_promotion, advance_promotion, heartbeat_promotion}
use aizim.Service.Atomic.{
  append_event-IsAtomic, approve-IsAtomic, persist-IsAtomic, enqueue_contribution-IsAtomic,
  claim_next_promotion-IsAtomic, advance_promotion-IsAtomic, heartbeat_promotion-IsAtomic,
  prepare_promotion-IsAtomic, publish_promotion-IsAtomic, fail_promotion-IsAtomic,
  recover_expired_promotion-IsAtomic, rebase_promotion-IsAtomic,
}
use aizim.Service.Requests.LogParts.{
  promotion_event-IsRoutine, persist-Grows, revoke-Grows, append_event-Grows, approve-Grows,
  enqueue_contribution-Grows, prepare_promotion-Grows, publish_promotion-Grows,
  fail_promotion-Grows, recover_expired-Grows, rebase_promotion-Grows,
}
use aizim.Service.Requests.{
  Request, append_request, approve_request, persist_request, revoke_request, enqueue_request,
  claim_request, advance_request, heartbeat_request, prepare_request, publish_request, fail_request,
  recover_request, rebase_request, document_request, serve, serve_all,
}

module _ (reducer : Reducer) (human : String → String → Bool) (formats : Formats) where
  run :
      {A : Type 0} {m : Tx Database A}
      → IsAtomic m
      → Moves (Grows reducer human) m
      → (d : Database) → Grows reducer human d (m d).1
  run k moves d = atomic_moves (Grows reducer human) (Grows-refl reducer human) _ k moves d

  -- A request keeps the log replayable, whatever the outcome.
  pub serve-Grows :
      (r : Request) (d : Database) → Grows reducer human d (serve reducer human formats r d)
  unfolding serve claim_next_promotion advance_promotion heartbeat_promotion
  serve-Grows (append_request s c) =
      run (append_event-IsAtomic reducer s c) (append_event-Grows reducer human s c)
  serve-Grows (approve_request s a b c e f g h) =
      run (approve-IsAtomic reducer human s a b c e f g h)
        (approve-Grows reducer human s a b c e f g h)
  serve-Grows (persist_request s c) =
      run (persist-IsAtomic reducer formats.canonical_timestamp s c)
        (persist-Grows reducer human formats.canonical_timestamp s c)
  serve-Grows (revoke_request k now) = revoke-Grows reducer human k now
  serve-Grows (enqueue_request s t c) =
      run (enqueue_contribution-IsAtomic reducer s t c)
        (enqueue_contribution-Grows reducer human s t c)
  serve-Grows (claim_request s owner now) =
      run (claim_next_promotion-IsAtomic reducer s owner now)
        (claim_next-Grows reducer human _ (promotion_event-IsRoutine s) owner now)
  serve-Grows (advance_request s id owner target now) =
      run (advance_promotion-IsAtomic reducer s id owner target now)
        (advance-Grows reducer human _ (promotion_event-IsRoutine s) id owner target now)
  serve-Grows (heartbeat_request s id owner now) =
      run (heartbeat_promotion-IsAtomic reducer s id owner now)
        (heartbeat-Grows reducer human _ (promotion_event-IsRoutine s) id owner now)
  serve-Grows (prepare_request s id owner c) =
      run (prepare_promotion-IsAtomic reducer s id owner c)
        (prepare_promotion-Grows reducer human s id owner c)
  serve-Grows (publish_request s t u id owner now c e) =
      run (publish_promotion-IsAtomic reducer s t u id owner now c e)
        (publish_promotion-Grows reducer human s t u id owner now c e)
  serve-Grows (fail_request s t id owner now c) =
      run (fail_promotion-IsAtomic reducer s t id owner now c)
        (fail_promotion-Grows reducer human s t id owner now c)
  serve-Grows (recover_request s owner now timeout) =
      run (recover_expired_promotion-IsAtomic reducer s owner now timeout)
        (recover_expired-Grows reducer human s owner now timeout)
  serve-Grows (rebase_request s t u v id owner now c e) =
      run (rebase_promotion-IsAtomic reducer s t u v id owner now c e)
        (rebase_promotion-Grows reducer human s t u v id owner now c e)
  serve-Grows (document_request c) =
      after_call-moves formats reducer (Grows reducer human) (Grows-refl reducer human)
        (Grows-trans reducer human) (Grows-append_within reducer human) c

  pub serve_all-Grows :
      (rs : List Request) (d : Database)
      → Grows reducer human d (serve_all reducer human formats rs d)
  unfolding serve_all
  serve_all-Grows [] d = Grows-refl reducer human d
  serve_all-Grows (r ∷ rs) d =
      let next = serve reducer human formats r d in
      Grows-trans reducer human d next (serve_all reducer human formats rs next) (serve-Grows r d)
        (serve_all-Grows rs next)

  -- After any requests, answered or refused, on a new database, the replay of the log succeeds and
  -- gives exactly the projections that the store has.
  pub serve_all-replayed :
      (rs : List Request)
      → replayed_projections reducer (serve_all reducer human formats rs initial)
        ≡ ok (serve_all reducer human formats rs initial).projections
  serve_all-replayed rs =
      replayed_projections_faithful reducer _ (serve_all-Grows rs initial).replayable

  -- After any requests on a new database, every event of the log that approves a transition of the
  -- environment has a run and an actor for whom the human approval was given.
  pub serve_all-approved :
      (rs : List Request) (r : EventRecord)
      → Memᴰ r (serve_all reducer human formats rs initial).events
      → is_type r.envelope.event_type environment_transition_approved ≡ true
      → (run : String) × (r.envelope.run_id ≡ some run) × (human run r.envelope.actor ≡ true)
  serve_all-approved rs r m h =
      AreApproved-row human _ r ((serve_all-Grows rs initial).approved tt) m h
