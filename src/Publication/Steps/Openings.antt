-- ===== src/Publication/Steps/Openings.antt =====
-- The transactions that submit, claim, recover and rebase, as steps of the queue's relation.
use aizim.Prelude.{ℕ, ◌≡◌, refl, ap, ◌∙◌, Bool, true, false, Option, none, some, String, arith}
use aizim.Outcome.{ok}
use aizim.Tx.{pure, ◌>>=◌, ◌>>◌}
use aizim.Tx.Rules.{Moves, bind-inv}
use aizim.Events.{EventEnvelope}
use aizim.Database.{QueueState, staged, quarantined, PublicationQueueEntry, Database}
use aizim.Queue.{
  can_transition, in_progress, is_queued, find_entry, any_active, first_where, is_stale,
}
use aizim.Queue.Laws.{map_row, find_entry-update_rows}
use aizim.Queue.Steps.{claim, move, refresh, change, done, and_then}
use aizim.Store.{Reducer, append_within}
use aizim.Publication.{
  EventFactory, log_state, enqueue, claim_next, insert_entry, insert_submission, claim_entry,
  claim_first,
}
use aizim.Publication.Endings.{recover, rebase, recover_entry}
use aizim.Publication.Keeps.{append_within-SameTable, log_state-SameTable}
use aizim.Publication.Steps.{
  Progress, Progress-same, update-inv, Progress-refl, Progress-trans, first_where-row, guard-inv,
  Moves-current_entry, update-Progress, insert_entry-Progress,
}
use aizim.Publication.Steps.Rules.{
  Progress-pure, Progress-lift, Progress-gets, Progress-refuse_if, Progress-bind,
  Progress-transaction, Progress-append_within, progress_rules, gets-then, lift-then, is_some-none,
}

quarantine_allowed : (s : QueueState) → in_progress s ≡ true → can_transition s quarantined ≡ true
unfolding can_transition
quarantine_allowed s h = ground arith

module _ (reducer : Reducer) where
  insert_submission-Steps :
      (submitted queued_event : EventEnvelope) (id : String) (d d' : Database)
      (existing : Option PublicationQueueEntry) {a : PublicationQueueEntry}
      → find_entry id d.publication_queue ≡ existing
      → insert_submission reducer submitted queued_event id existing d ≡ (ok a, d')
      → Progress d d'
  unfolding insert_submission
  insert_submission-Steps submitted queued_event id d d' none free h =
      let (r, t, p, q) = bind-inv _ _ h in
      let same = (append_within-SameTable reducer submitted).at d t r p in
      Progress-trans d t d' ((Progress-append_within reducer submitted).at d t r p) (
        insert_entry-Progress id _ (λ e. search progress_rules) t d'
          (ap (λ s. find_entry id s.rows) same ∙ free) q)
  insert_submission-Steps submitted queued_event id d d' (some e) found h =
      (Progress-bind _ _ (Progress-gets _)
          (λ _. Progress-bind _ _ (Progress-refuse_if _ _) (λ _. Progress-pure e))).at
        d d' _ h

  pub enqueue-Moves :
      (submitted queued_event : EventEnvelope)
      → Moves Progress (enqueue reducer submitted queued_event)
  unfolding enqueue insert_submission
  enqueue-Moves submitted queued_event = Progress-bind _ _ (Progress-lift _) (λ id.
      Progress-bind _ _ (Progress-refuse_if _ _) (λ _. Progress-bind _ _ (Progress-lift _) (λ q.
        Progress-bind _ _ (Progress-refuse_if _ _) (λ _. Progress-transaction _ (record {
          at = λ d d' a h.
              insert_submission-Steps submitted queued_event id d d' _ refl (gets-then _ _ d d' h);
        })))))

  claim_entry-Steps :
      (owner : String) (at : ℕ) (event : EventFactory) (d d' : Database)
      (first : Option PublicationQueueEntry) {a : Option PublicationQueueEntry}
      → any_active d.publication_queue ≡ false
      → first_where (λ e. is_queued e.state) d.publication_queue ≡ first
      → claim_entry reducer owner at event first d ≡ (ok a, d')
      → Progress d d'
  unfolding claim_entry
  claim_entry-Steps owner at event d d' none idle f h = (Progress-pure _).at d d' _ h
  claim_entry-Steps owner at event d d' (some c) idle f h =
      let (row, waits) = first_where-row _ d.publication_queue c f in
      update-Progress c owner at staged _ (λ e. search progress_rules) d d' row
        (claim waits idle refl) h

  claim_first-Steps :
      (owner : String) (at : ℕ) (event : EventFactory) (d d' : Database) (busy : Bool)
      {a : Option PublicationQueueEntry}
      → any_active d.publication_queue ≡ busy
      → claim_first reducer owner at event busy d ≡ (ok a, d')
      → Progress d d'
  unfolding claim_first claim_entry
  claim_first-Steps owner at event d d' true b h = (Progress-pure _).at d d' _ h
  claim_first-Steps owner at event d d' false b h =
      claim_entry-Steps owner at event d d' _ b refl (gets-then _ _ d d' h)

  pub claim_next-Moves :
      (owner : String) (at : ℕ) (event : EventFactory)
      → Moves Progress (claim_next reducer owner at event)
  unfolding claim_next claim_first claim_entry
  claim_next-Moves owner at event = Progress-transaction _ (record {
    at = λ d d' a h. claim_first-Steps owner at event d d' _ refl (gets-then _ _ d d' h);
  })

  recover_entry-Steps :
      (owner : String) (now : ℕ) (stale : ℕ) (event : EventFactory) (d d' : Database)
      (found : Option PublicationQueueEntry) {a : Option PublicationQueueEntry}
      → first_where (is_stale stale) d.publication_queue ≡ found
      → recover_entry reducer owner now event found d ≡ (ok a, d')
      → Progress d d'
  unfolding recover_entry is_stale
  recover_entry-Steps owner now stale event d d' none f h = (Progress-pure _).at d d' _ h
  recover_entry-Steps owner now stale event d d' (some c) f h =
      let (row, old) = first_where-row _ d.publication_queue c f in
      update-Progress c owner now c.state _ (λ e. search progress_rules) d d' row
        (refresh (ground arith) (ground arith) refl) h

  pub recover-Moves :
      (owner : String) (now stale : ℕ) (event : EventFactory)
      → Moves Progress (recover reducer owner now stale event)
  unfolding recover recover_entry
  recover-Moves owner now stale event = Progress-transaction _ (record {
    at = λ d d' a h. recover_entry-Steps owner now stale event d d' _ refl (gets-then _ _ d d' h);
  })

  -- The second half of a rebase, past the change of the old row.
  insert_rebased-Steps :
      (id : String) (event : EventFactory) (submitted queued_event rebased : EventEnvelope)
      (old : PublicationQueueEntry) (u d' : Database)
      {a : PublicationQueueEntry × PublicationQueueEntry}
      → find_entry id u.publication_queue ≡ none
      → (do
        log_state reducer event old none
        append_within reducer submitted
        new ← insert_entry id
        append_within reducer queued_event
        append_within reducer rebased
        pure (old, new))
          u
        ≡ (ok a, d')
      → Progress u d'
  insert_rebased-Steps id event submitted queued_event rebased old u d' free h =
      let (x, v, p, q) = bind-inv _ _ h in
      let (y, w, p', q') = bind-inv _ _ q in
      let logged = (log_state-SameTable reducer event old none).at u v x p in
      let kept = (append_within-SameTable reducer submitted).at v w y p' ∙ logged in
      Progress-trans u w d' (Progress-same u u w (Progress-refl u) kept) (
        insert_entry-Progress id _ (λ e. search progress_rules) w d'
          (ap (λ s. find_entry id s.rows) kept ∙ free) q')

  pub rebase-Moves :
      (id owner : String) (at : ℕ) (submitted queued_event rebased : EventEnvelope)
      (event : EventFactory)
      → Moves Progress (rebase reducer id owner at submitted queued_event rebased event)
  unfolding rebase
  rebase-Moves id owner at submitted queued_event rebased event = Progress-transaction _ (
      Moves-current_entry id _ (λ d d' c a row h.
        let (new_id, known, h1) = lift-then _ _ d d' h in
        let (allowed, h2) = guard-inv _ _ _ h1 in
        let (free, h3) = guard-inv _ _ _ (gets-then _ _ d d' h2) in
        let (old, u, p, q) = bind-inv _ _ h3 in
        let moved = update-inv c owner at quarantined d u p in
        Progress-trans d u d'
          (and_then done (
            change owner at quarantined c row
              (move (ground arith) (quarantine_allowed c.state (ground arith))) moved))
          (insert_rebased-Steps new_id event submitted queued_event rebased old u d'
            (ap (λ s. find_entry new_id s.rows) moved
              ∙ find_entry-update_rows c _ owner at quarantined new_id d.publication_queue
              ∙ ap (map_row _) (is_some-none _ free))
            q)))
