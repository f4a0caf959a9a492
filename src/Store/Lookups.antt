-- ===== src/Store/Lookups.antt =====
-- What an append within a transaction leaves in the table of projections.
use aizim.Prelude.{
  ◌≡◌, refl, sym, ap, ◌∙◌, some, List, [], ◌∷◌, String, if◌then◌else◌, arith, eq_iff,
}
use aizim.Outcome.{Outcome, ok, raised}
use aizim.Tx.Rules.{bind-inv, gets-inv, lift-inv, pure-inv}
use aizim.Events.{EventEnvelope, EventRecord}
use aizim.Projections.{ProjectionRecord, find_record, at_key}
use aizim.Database.{Database}
use aizim.Tokens.{revoke_lease_capabilities}
use aizim.Store.{
  Reducer, insert_event, upsert, write_changes, save_projections, apply_event_mutation,
  append_within,
}

-- What is found after a row has been written.
pub find_record-upsert :
    (name entity : String) (c : ProjectionRecord) (rs : List ProjectionRecord)
    → find_record name entity (upsert c rs)
      ≡ (if at_key name entity c then some c else find_record name entity rs)
unfolding find_record upsert
find_record-upsert name entity c [] = refl
find_record-upsert name entity c (r ∷ rs) = ground (
  arith,
  eq_iff r.projection_name c.projection_name,
  eq_iff r.entity_id c.entity_id,
  eq_iff c.projection_name name,
  eq_iff c.entity_id entity,
  eq_iff r.projection_name name,
  eq_iff r.entity_id entity,
  find_record-upsert name entity c rs,
)

insert_event-projections :
    (e : EventEnvelope) (d d' : Database) {n : _}
    → insert_event e d ≡ (ok n, d')
    → d'.projections ≡ d.projections
unfolding insert_event
insert_event-projections e d d' h = ground arith

save_projections-written :
    (r : Outcome (List ProjectionRecord)) (d d' : Database)
    → save_projections r d ≡ (ok tt, d')
    → r ≡ ok d'.projections
unfolding save_projections
save_projections-written (ok rs) d d' h = ground arith
save_projections-written (raised e) d d' h = ground arith

revoke_lease_capabilities-projections :
    (e : EventEnvelope) (d d' : Database)
    → revoke_lease_capabilities e d ≡ (ok tt, d')
    → d'.projections ≡ d.projections
unfolding revoke_lease_capabilities
revoke_lease_capabilities-projections e d d' h = ground arith

apply_event_mutation-projections :
    (reducer : Reducer) (e : EventEnvelope) (snapshots : List ProjectionRecord) (d d' : Database)
    (x : EventRecord)
    → apply_event_mutation reducer e snapshots d ≡ (ok x, d')
    → (cs : List ProjectionRecord) × (reducer snapshots e ≡ ok cs)
      × (write_changes cs d.projections ≡ ok d'.projections)
unfolding apply_event_mutation
apply_event_mutation-projections reducer e snapshots d d' x h =
    let (n, t, inserted, h1) = bind-inv _ _ h in
    let (cs, u, reduced, h2) = bind-inv _ _ h1 in
    let (same, is_cs) = lift-inv (reducer snapshots e) t reduced in
    let (current, v, read, h3) = bind-inv _ _ h2 in
    let (same', is_current) = gets-inv (λ (s : Database). s.projections) u read in
    let (w, s, saved, h4) = bind-inv _ _ h3 in
    let (end', made) = pure-inv _ s h4 in
    let before =
      is_current
      ∙ ap (λ (z : Database). z.projections) same
      ∙ insert_event-projections e d t inserted in
    (
      cs,
      is_cs,
      ap (write_changes cs) (sym before)
          ∙ save_projections-written (write_changes cs current) v s saved
          ∙ ap (λ (z : Database). ok z.projections) (sym end'),
    )

-- The reducer's changes, on the projections before, are the projections after.
pub append_within-projections :
    (reducer : Reducer) (e : EventEnvelope) (d d' : Database) (x : EventRecord)
    → append_within reducer e d ≡ (ok x, d')
    → (cs : List ProjectionRecord) × (reducer d.projections e ≡ ok cs)
      × (write_changes cs d.projections ≡ ok d'.projections)
unfolding append_within
append_within-projections reducer e d d' x h =
    let (snapshots, t, read, h1) = bind-inv _ _ h in
    let (same, is_read) = gets-inv (λ (s : Database). s.projections) d read in
    let (y, u, applied, h2) = bind-inv _ _ h1 in
    let (v, s, revoked, h3) = bind-inv _ _ h2 in
    let (end', made) = pure-inv _ s h3 in
    let (cs, reduced, written) =
      apply_event_mutation-projections reducer e snapshots t u y applied in
    let after =
      ap (λ (z : Database). z.projections) end'
      ∙ revoke_lease_capabilities-projections e u s revoked in
    (
      cs,
      ap (λ l. reducer l e) (sym is_read) ∙ reduced,
      ap (λ (z : Database). write_changes cs z.projections) (sym same)
          ∙ written
          ∙ ap ok (sym after),
    )
