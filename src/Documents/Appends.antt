-- ===== src/Documents/Appends.antt =====
-- An operation on documents that succeeds has appended its event, as the store appends one within an
-- open transaction.
use aizim.Prelude.{ℕ, ◌≡◌, sym, ap, ◌∙◌, Option, List, String}
use mathlib.Core.Path.{subst}
use aizim.Outcome.{Outcome, ok}
use aizim.Tx.{Tx, pure, ◌>>=◌, ◌>>◌}
use aizim.Tx.Rules.{bind-inv, bind-ok, gets-inv, pure-inv, transaction-inv}
use aizim.Tx.Atomic.{IsReading, reading_rules}
use aizim.Events.{EventEnvelope, EventRecord}
use aizim.Projections.{ProjectionRecord}
use aizim.Database.{Database}
use aizim.Store.{Reducer, apply_event_mutation, append_within}
use aizim.Documents.{Formats, FileLease, LeaseState, DocumentState}
use aizim.Documents.Snapshots.{AccessDocument}
use aizim.Documents.Operations.{
  event_matches, validate_grant, validate_termination, apply_grant, apply_prepare, apply_commit,
  apply_recover, apply_terminate, mutation,
}

module _ (formats : Formats) where
  pub IsReading-event_matches :
      (document : DocumentState) (event : EventEnvelope) (version : ℕ) (hash : Option String)
      → IsReading (event_matches formats document event version hash)
  unfolding event_matches
  IsReading-event_matches document event version hash = search reading_rules depth 12

  pub IsReading-validate_grant :
      (lease : FileLease) (path : String) (now : ℕ) (event : EventEnvelope)
      (snapshots : List ProjectionRecord)
      → IsReading (validate_grant formats lease path now event snapshots)
  unfolding validate_grant
  IsReading-validate_grant lease path now event snapshots = search reading_rules depth 24

  pub IsReading-validate_termination :
      (run : String) (worker : Option String) (lease : LeaseState)
      → IsReading (validate_termination formats run worker lease)
  unfolding validate_termination
  IsReading-validate_termination run worker lease = search reading_rules depth 12

-- A branch whose only writes are those of its event.
pub record Writes (reducer : Reducer) (event : EventEnvelope) (snapshots : List ProjectionRecord)
    {A : Type 0} (m : Tx Database A) : Type 0 where
  pub at :
      (d d' : Database) (a : A)
      → m d ≡ (ok a, d')
      → (x : EventRecord) × (apply_event_mutation reducer event snapshots d ≡ (ok x, d'))

module _ (reducer : Reducer) (event : EventEnvelope) (snapshots : List ProjectionRecord) where
  Writes-mutation : Writes reducer event snapshots (apply_event_mutation reducer event snapshots)
  Writes-mutation = record { at = λ d d' x h. (x, h) }

  Writes-result :
      {A B : Type 0} (m : Tx Database A) (b : B)
      → Writes reducer event snapshots m
      → Writes reducer event snapshots (m >> pure b)
  Writes-result m b w = record {
    at = λ d d' x h.
        let (a, t, p, q) = bind-inv m (λ _. pure b) h in
        let (same, made) = pure-inv b t q in
        let (y, wrote) = w.at d t a p in (y, wrote ∙ ap (λ (s : Database). (ok y, s)) (sym same));
  }

  Writes-bind :
      {A B : Type 0} (m : Tx Database A) (f : A → Tx Database B)
      → IsReading m
      → ((a : A) → Writes reducer event snapshots (f a))
      → Writes reducer event snapshots (m >>= f)
  Writes-bind {A} {B} m f r k = record {
    at = λ d d' b h.
        let (a, t, p, q) = bind-inv m f h in
        let same = sym (ap (λ (x : Outcome A × Database). x.1) p) ∙ r.at d in
        (k a).at d d' b (subst (λ s. f a s ≡ (ok b, d')) same q);
  }

ruleset write_rules = (
  reading_rules, IsReading-event_matches, IsReading-validate_grant, IsReading-validate_termination,
  Writes-mutation, Writes-result, Writes-bind,
)

module _ (formats : Formats) (reducer : Reducer) (snapshots : List ProjectionRecord) where
  pub apply_grant-Writes :
      (lease : FileLease) (path : String) (now : ℕ) (e : EventEnvelope)
      → Writes reducer e snapshots (apply_grant formats reducer lease path now e snapshots)
  unfolding apply_grant
  apply_grant-Writes lease path now e = search write_rules depth 12

  pub apply_prepare-Writes :
      (a : AccessDocument) (version : ℕ) (hash : String) (e : EventEnvelope)
      → Writes reducer e snapshots (apply_prepare formats reducer a version hash e snapshots)
  unfolding apply_prepare
  apply_prepare-Writes a version hash e = search write_rules depth 12

  pub apply_commit-Writes :
      (id : String) (now : ℕ) (e : EventEnvelope)
      → Writes reducer e snapshots (apply_commit formats reducer id now e snapshots)
  unfolding apply_commit
  apply_commit-Writes id now e = search write_rules depth 12

  pub apply_recover-Writes :
      (id : String) (e : EventEnvelope)
      → Writes reducer e snapshots (apply_recover formats reducer id e snapshots)
  unfolding apply_recover
  apply_recover-Writes id e = search write_rules depth 12

  pub apply_terminate-Writes :
      (run : String) (worker : Option String) (id : String) (e : EventEnvelope)
      → Writes reducer e snapshots (apply_terminate formats reducer run worker id e snapshots)
  unfolding apply_terminate
  apply_terminate-Writes run worker id e = search write_rules depth 12

-- What a transaction on documents has done to the database, its event apart.
pub mutation-append_within :
    {A : Type 0} (reducer : Reducer) (e : EventEnvelope)
    (branch : List ProjectionRecord → Tx Database A) (d d' : Database) (a : A)
    → ((snapshots : List ProjectionRecord) → Writes reducer e snapshots (branch snapshots))
    → mutation e branch d ≡ (ok a, d')
    → (x : EventRecord) × (append_within reducer e d ≡ (ok x, d'))
unfolding mutation append_within pure
mutation-append_within reducer e branch d d' a w h =
    let (snapshots, t, read, h1) = bind-inv _ _ (transaction-inv _ h) in
    let (result, u, wrote, h2) = bind-inv _ _ h1 in
    let (v, s, revoked, h3) = bind-inv _ _ h2 in
    let (same, made) = pure-inv _ s h3 in
    let (x, applied) = (w snapshots).at t u result wrote in
    (
      x,
      bind-ok _ _ read
          ∙ bind-ok _ _ applied
          ∙ bind-ok _ _ revoked
          ∙ ap (λ (r : Database). (ok x, r)) (sym same),
    )

-- The branch of a transaction on documents ran on the projections of the database.
pub mutation-inv :
    {A : Type 0} (e : EventEnvelope) (branch : List ProjectionRecord → Tx Database A)
    (d d' : Database) (a : A)
    → mutation e branch d ≡ (ok a, d')
    → (t : Database) × (branch d.projections d ≡ (ok a, t))
unfolding mutation
mutation-inv {A} e branch d d' a h =
    let (snapshots, t, read, h1) = bind-inv _ _ (transaction-inv _ h) in
    let (same, is_read) = gets-inv (λ (s : Database). s.projections) d read in
    let (result, u, ran, h2) = bind-inv _ _ h1 in
    let (v, s, revoked, h3) = bind-inv _ _ h2 in
    let (same', made) = pure-inv _ s h3 in
    let here = subst (λ l. branch l t ≡ (ok result, u)) is_read ran in
    let there = subst (λ z. branch d.projections z ≡ (ok result, u)) same here in
    (u, there ∙ ap (λ (r : A). (ok r, u)) (sym made))
