-- ===== src/Publication/Requirements.antt =====
-- What a claim, a publication and a repeated submission require and give.
use mathlib.Core.Path.{subst}
use mathlib.Core.List.{Memᴰ}
use aizim.Prelude.{
  ℕ, ◌+◌, ◌≡◌, sym, ap, ◌∙◌, true, Option, none, some, String, same_text?-eq, arith,
}
use aizim.Outcome.{ok}
use aizim.Json.{object_eq}
use aizim.Tx.Rules.{bind-inv, transaction-inv, pure-inv, refuse_if-inv}
use aizim.Events.{EventEnvelope, EventRecord, contribution_submitted, promotion_prepared}
use aizim.Database.{QueueState, materialized, published, PublicationQueueEntry, Database}
use aizim.Queue.{can_transition, find_entry, claimed}
use aizim.Store.{Reducer}
use aizim.Publication.{
  EventFactory, update, enqueue, contribution_id, same_submission, insert_submission,
}
use aizim.Publication.Endings.{publish}
use aizim.Publication.Queries.{Prepares, equal-Prepares, has_preparation-inv, same_submission-inv}
use aizim.Publication.Steps.{current_entry-found, read-inv, guard-inv}
use aizim.Publication.Steps.Rules.{gets-then, lift-then, require_prepared-inv}

update-entry :
    (c : PublicationQueueEntry) (owner : String) (at : ℕ) (target : QueueState) (d d' : Database)
    {e : PublicationQueueEntry}
    → update c owner at target d ≡ (ok e, d')
    → e ≡ claimed (c.state_version + 1) owner at target c
unfolding update
update-entry c owner at target d d' {e} h = ground arith

module _ (reducer : Reducer) (event : EventFactory) where
  publishable : (s : QueueState) → can_transition s published ≡ true → s ≡ materialized
  unfolding can_transition
  publishable s h = ground arith

  -- A publication that succeeds has found the row of the contribution materialized and claimed by
  -- the owner, and in the log a preparation whose payload has the contribution's identifier, the
  -- texts that the declaration has as its module, content hash and identifier, the texts that the
  -- epoch's event has as its base epoch and identifier, and the natural number that this event has
  -- as its knowledge epoch, each if there is one and none if there is none; it returns the row as
  -- published.
  pub publish-prepared :
      (id owner : String) (at : ℕ) (declaration delta : EventEnvelope) (d d' : Database)
      (e : PublicationQueueEntry)
      → publish reducer id owner at declaration delta event d ≡ (ok e, d')
      → (c : PublicationQueueEntry) × (find_entry id d.publication_queue ≡ some c)
        × (c.claimed_by ≡ some owner)
        × (c.state ≡ materialized)
        × (r : EventRecord) × Memᴰ r d.events
        × (r.envelope.event_type ≡ promotion_prepared)
        × Prepares id declaration.payload delta.payload r.envelope.payload
        × (e ≡ claimed (c.state_version + 1) owner at published c)
  unfolding publish
  publish-prepared id owner at declaration delta d d' e h =
      let (c, t, p, q) = bind-inv _ _ (transaction-inv _ h) in
      let (here, found) = read-inv _ p in
      let (allowed, h1) = guard-inv _ _ _ q in
      let (u, t', p', h2) = bind-inv _ _ h1 in
      let (same, prepared) = require_prepared-inv id declaration delta t t' p' in
      let (f, v, p2, h3) = bind-inv _ _ h2 in
      let (r, w, p3, h4) = bind-inv _ _ h3 in
      let (r', w', p4, h5) = bind-inv _ _ h4 in
      let (r2, w2, p5, h6) = bind-inv _ _ h5 in
      let (last, made) = pure-inv f w2 h6 in
      let (r0, logged, typed, equal) = has_preparation-inv _ t.events prepared in
      (
        c,
        current_entry-found id d c found,
        same_text?-eq c.claimed_by (some owner) (ground arith),
        publishable c.state (ground arith),
        r0,
        subst (λ (s : Database). Memᴰ r0 s.events) here logged,
        typed,
        equal-Prepares id declaration.payload delta.payload r0.envelope.payload equal,
        made ∙ update-entry c owner at published t' v p2,
      )

module _ (reducer : Reducer) where
  insert_submission-existing :
      (submitted queued_event : EventEnvelope) (id : String) (d d' : Database)
      (found : Option PublicationQueueEntry) (e e' : PublicationQueueEntry)
      → found ≡ some e
      → insert_submission reducer submitted queued_event id found d ≡ (ok e', d')
      → (d' ≡ d) × (e' ≡ e) × (same_submission submitted d.events ≡ true)
  unfolding insert_submission
  insert_submission-existing submitted queued_event id d d' none e e' f h = ground arith
  insert_submission-existing submitted queued_event id d d' (some x) e e' f h =
      let (u, t, p, q) = bind-inv _ _ (gets-then _ _ d d' h) in
      let (here, known) = refuse_if-inv _ _ d p in
      let (last, made) = pure-inv x t q in
      let same : x ≡ e = ground arith in (last ∙ here, made ∙ same, ground arith)

  -- Where a contribution has a row, its submission is accepted only if the log has a submission with
  -- the same run and an equal payload; it returns the row and changes nothing.
  pub enqueue-again :
      (submitted queued_event : EventEnvelope) (id : String) (d d' : Database)
      (e e' : PublicationQueueEntry)
      → contribution_id "INVALID_CONTRIBUTION_ENQUEUE" submitted ≡ ok id
      → find_entry id d.publication_queue ≡ some e
      → enqueue reducer submitted queued_event d ≡ (ok e', d')
      → (d' ≡ d)
        × (e' ≡ e)
        × (r : EventRecord) × Memᴰ r d.events
        × (r.envelope.event_type ≡ contribution_submitted)
        × (r.envelope.run_id ≡ submitted.run_id)
        × (object_eq r.envelope.payload submitted.payload ≡ true)
  unfolding enqueue
  enqueue-again submitted queued_event id d d' e e' named found h =
      let (i, first, h1) = lift-then _ _ d d' h in
      let (u, t, p, h2) = bind-inv _ _ h1 in
      let (here, typed) = refuse_if-inv _ _ d p in
      let (j, second, h3) = lift-then _ _ t d' h2 in
      let (v, t', p', h4) = bind-inv _ _ h3 in
      let (here', agreed) = refuse_if-inv _ _ t p' in
      let at_start = here' ∙ here in
      let same : i ≡ id = ground arith in
      let there =
        ap (λ (s : Database). find_entry i s.publication_queue) at_start
        ∙ ap (λ k. find_entry k d.publication_queue) same
        ∙ found in
      let (last, row, known) =
        insert_submission-existing submitted queued_event i t' d' _ e e' there
          (gets-then _ _ t' d' (transaction-inv _ h4)) in
      let (r, logged, submits, run, payload) =
        same_submission-inv submitted d.events
          (ap (λ (s : Database). same_submission submitted s.events) (sym at_start) ∙ known) in
      (last ∙ at_start, row, r, logged, submits, run, payload)
