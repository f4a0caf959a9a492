-- ===== src/Store/Replay/Mirror.antt =====
-- The tables that the log determines, and what one append does to them.
use aizim.Prelude.{◌≡◌, sym, ap, ◌∙◌, false, List, [], ◌∷◌, ◌++◌, arith}
use aizim.Outcome.{Outcome, ok, raised}
use aizim.Tx.{Tx, pure, gets, lift, ◌>>=◌, ◌>>◌}
use aizim.Tx.Rules.{
  pure-inv, lift-inv, gets-inv, bind-inv, bind-ok, transaction-inv, transaction-ok,
  rename_failure-inv, rename_failure-ok,
}
use aizim.Events.{EventEnvelope, EventRecord}
use aizim.Projections.{ProjectionRecord}
use aizim.Database.{Database, CapabilityRecord}
use aizim.Tokens.{ends_lease, revoke_lease_capabilities, revoke_lease, insert_capability}
use aizim.Artifacts.{is_artifact_registered, register_artifact}
use aizim.Store.{
  Reducer, insert_event, save_projections, apply_event_mutation, append, append_within,
  persist_capability,
}

-- The tables that the log of events determines: a database without its tokens and its queue.
abbrev pub logged : Database → Database
logged d = record d { capability_tokens = []; publication_queue = []; queue_sequence = 0 }

-- A step that reads and writes the logged tables as it does where the others are empty.
record IsMirrored {A : Type 0} (m : Tx Database A) : Type 0 where
  at : (d d' : Database) (a : A) → m d ≡ (ok a, d') → m (logged d) ≡ (ok a, logged d')

module _ {A : Type 0} where
  IsMirrored-pure : (a : A) → IsMirrored (pure a)
  unfolding pure
  IsMirrored-pure a = record { at = λ d d' b e. ground arith }

  IsMirrored-lift : (r : Outcome A) → IsMirrored (lift r)
  unfolding lift
  IsMirrored-lift r = record { at = λ d d' b e. ground arith }

  IsMirrored-bind :
      {B : Type 0} (m : Tx Database A) (f : A → Tx Database B)
      → IsMirrored m
      → ((a : A) → IsMirrored (f a))
      → IsMirrored (m >>= f)
  IsMirrored-bind m f km kf = record {
    at = λ d d' b e.
        let (a, t, p, q) = bind-inv m f e in bind-ok m f (km.at d t a p) ∙ (kf a).at t d' b q;
  }

IsMirrored-projections : IsMirrored (gets (λ d. d.projections))
unfolding gets
IsMirrored-projections = record { at = λ d d' b e. ground arith }

insert_event-IsMirrored : (e : EventEnvelope) → IsMirrored (insert_event e)
unfolding insert_event
insert_event-IsMirrored e = record { at = λ d d' n h. ground arith }

save_projections-IsMirrored :
    (r : Outcome (List ProjectionRecord)) → IsMirrored (save_projections r)
unfolding save_projections
save_projections-IsMirrored (ok rs) = record { at = λ d d' n h. ground arith }
save_projections-IsMirrored (raised x) = record { at = λ d d' n h. ground arith }

register_artifact-IsMirrored : (e : EventEnvelope) → IsMirrored (register_artifact e)
unfolding register_artifact
register_artifact-IsMirrored e = record { at = λ d d' n h. ground arith }

revoke_lease_capabilities-IsMirrored :
    (e : EventEnvelope) → IsMirrored (revoke_lease_capabilities e)
unfolding revoke_lease_capabilities revoke_lease
revoke_lease_capabilities-IsMirrored e = record { at = λ d d' n h. ground arith }

ruleset mirror_rules = (
  IsMirrored-pure, IsMirrored-lift, IsMirrored-bind, IsMirrored-projections,
  insert_event-IsMirrored, save_projections-IsMirrored, register_artifact-IsMirrored,
  revoke_lease_capabilities-IsMirrored,
)

apply_event_mutation-IsMirrored :
    (reducer : Reducer) (e : EventEnvelope) (snapshots : List ProjectionRecord)
    → IsMirrored (apply_event_mutation reducer e snapshots)
unfolding apply_event_mutation
apply_event_mutation-IsMirrored reducer e snapshots = search mirror_rules

-- What a successful append adds to the log.
abbrev Logs : EventEnvelope → Database → EventRecord → Database → Type 0
Logs e d x d' = (d'.events ≡ d.events ++ x ∷ []) × (x.envelope ≡ e)

insert_event-events :
    (e : EventEnvelope) (d : Database) {n : _} {d' : Database}
    → insert_event e d ≡ (ok n, d')
    → d'.events ≡ d.events ++ record { sequence = n; envelope = e } ∷ []
unfolding insert_event
insert_event-events e d h = ground arith

save_projections-events :
    (r : Outcome (List ProjectionRecord)) (d : Database) {d' : Database}
    → save_projections r d ≡ (ok tt, d')
    → d'.events ≡ d.events
unfolding save_projections
save_projections-events (ok rs) d h = ground arith
save_projections-events (raised x) d h = ground arith

module _ (e : EventEnvelope) (d : Database) {d' : Database} where
  register_artifact-events : register_artifact e d ≡ (ok tt, d') → d'.events ≡ d.events
  unfolding register_artifact
  register_artifact-events h = ground arith

  revoke_lease_capabilities-events :
      revoke_lease_capabilities e d ≡ (ok tt, d') → d'.events ≡ d.events
  unfolding revoke_lease_capabilities
  revoke_lease_capabilities-events h = ground arith

register_artifact-skips :
    (e : EventEnvelope) (d : Database)
    → is_artifact_registered e.event_type ≡ false
    → register_artifact e d ≡ (ok tt, d)
unfolding register_artifact
register_artifact-skips e d h = ground arith

apply_event_mutation-Logs :
    (reducer : Reducer) (e : EventEnvelope) (snapshots : List ProjectionRecord) (d d' : Database)
    (x : EventRecord)
    → apply_event_mutation reducer e snapshots d ≡ (ok x, d')
    → Logs e d x d'
unfolding apply_event_mutation
apply_event_mutation-Logs reducer e snapshots d d' x h =
    let (n, d1, inserted, h1) = bind-inv _ _ h in
    let (changes, d2, reduced, h2) = bind-inv _ _ h1 in
    let (current, d3, read, h3) = bind-inv _ _ h2 in
    let (done, d4, saved, h4) = bind-inv _ _ h3 in
    let (same, made) = pure-inv _ d4 h4 in
    (
      ap (λ (t : Database). t.events) same
          ∙ save_projections-events _ d3 saved
          ∙ ap (λ (t : Database). t.events) ((gets-inv _ d2 read).0 ∙ (lift-inv _ d1 reduced).0)
          ∙ insert_event-events e d inserted
          ∙ ap (λ y. d.events ++ y ∷ []) (sym made),
      ap (λ (y : EventRecord). y.envelope) made,
    )

module _ (reducer : Reducer) (e : EventEnvelope) (d d' : Database) (x : EventRecord) where
  -- A successful append does the same to the logged tables alone.
  pub append-logged :
      append reducer e d ≡ (ok x, d') → append reducer e (logged d) ≡ (ok x, logged d')
  unfolding append
  append-logged h =
      rename_failure-ok _ _
        (transaction-ok _ (body.at d d' x (transaction-inv _ (rename_failure-inv _ _ h))))
    where
      body : IsMirrored (do
        snapshots ← gets (λ d. d.projections)
        appended ← apply_event_mutation reducer e snapshots
        register_artifact e
        revoke_lease_capabilities e
        pure appended)
      body = search (mirror_rules, apply_event_mutation-IsMirrored)

  pub append-Logs : append reducer e d ≡ (ok x, d') → Logs e d x d'
  unfolding append
  append-Logs h =
      let (snapshots, d1, read, h1) = bind-inv _ _ (transaction-inv _ (rename_failure-inv _ _ h)) in
      let (appended, d2, added, h2) = bind-inv _ _ h1 in
      let (u, d3, registered, h3) = bind-inv _ _ h2 in
      let (v, d4, revoked, h4) = bind-inv _ _ h3 in
      let (same, made) = pure-inv _ d4 h4 in
      let logs = apply_event_mutation-Logs reducer e snapshots d1 d2 appended added in
      (
        ap (λ (t : Database). t.events) same
            ∙ revoke_lease_capabilities-events e d3 revoked
            ∙ register_artifact-events e d2 registered
            ∙ logs.0
            ∙ ap (λ (t : Database). t.events ++ appended ∷ []) (gets-inv _ d read).0
            ∙ ap (λ y. d.events ++ y ∷ []) (sym made),
        ap (λ (y : EventRecord). y.envelope) made ∙ logs.1,
      )

  -- An append inside an open transaction is an append, where the event registers no artifact.
  pub append_within-append :
      is_artifact_registered e.event_type ≡ false
      → append_within reducer e d ≡ (ok x, d')
      → append reducer e d ≡ (ok x, d')
  unfolding append append_within
  append_within-append plain h =
      let (snapshots, d1, read, h1) = bind-inv _ _ h in
      let (appended, d2, added, h2) = bind-inv _ _ h1 in
      rename_failure-ok _ _ (
        transaction-ok _ (
          bind-ok _ _ read
          ∙ bind-ok _ _ added
          ∙ bind-ok _ _ (register_artifact-skips e d2 plain)
          ∙ h2))

revoke_lease_capabilities-skips :
    (e : EventEnvelope) (d : Database)
    → ends_lease e.event_type ≡ false
    → revoke_lease_capabilities e d ≡ (ok tt, d)
unfolding revoke_lease_capabilities
revoke_lease_capabilities-skips e d h = ground arith

insert_capability-logged :
    (c : CapabilityRecord) (d : Database) {d' : Database}
    → insert_capability c d ≡ (ok tt, d')
    → (logged d' ≡ logged d) × (d'.events ≡ d.events)
unfolding insert_capability
insert_capability-logged c d h = (ground arith, ground arith)

-- The mint of a token appends its event after the insert of the token.
pub persist_capability-append :
    (reducer : Reducer) (c : CapabilityRecord) (e : EventEnvelope) (d d' : Database)
    (x : EventRecord)
    → is_artifact_registered e.event_type ≡ false
    → ends_lease e.event_type ≡ false
    → persist_capability reducer c e d ≡ (ok x, d')
    → (t : Database) × (append reducer e t ≡ (ok x, d'))
      × (logged t ≡ logged d)
      × (t.events ≡ d.events)
unfolding persist_capability append_within pure
persist_capability-append reducer c e d d' x plain lasting h =
    let (u, t, inserted, h1) = bind-inv _ _ (transaction-inv _ (rename_failure-inv _ _ h)) in
    let (snapshots, d1, read, h2) = bind-inv _ _ h1 in
    let kept = insert_capability-logged c d inserted in
    (
      t,
      append_within-append reducer e t d' x plain (
          bind-ok _ _ read
          ∙ bind-ok _ _ h2
          ∙ bind-ok _ _ (revoke_lease_capabilities-skips e d' lasting)),
      kept.0,
      kept.1,
    )
