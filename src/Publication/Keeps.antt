-- ===== src/Publication/Keeps.antt =====
-- The appends inside a transaction leave the publication queue alone.
use aizim.Prelude.{◌≡◌, refl, ◌∙◌, List, Option, String, arith}
use aizim.Outcome.{Outcome, ok, raised}
use aizim.Tx.{Tx, pure, gets, lift, ◌>>=◌}
use aizim.Tx.Rules.{Moves, Moves-pure, Moves-lift, Moves-gets, Moves-bind}
use aizim.Events.{EventEnvelope}
use aizim.Projections.{ProjectionRecord}
use aizim.Database.{PublicationQueueEntry, Database}
use aizim.Tokens.{revoke_lease_capabilities}
use aizim.Store.{Reducer, insert_event, save_projections, apply_event_mutation, append_within}
use aizim.Queue.Steps.{table}
use aizim.Publication.{EventFactory, log_state}

abbrev pub SameTable : Database → Database → Type 0
SameTable d d' = table d' ≡ table d

pub SameTable-refl : (d : Database) → SameTable d d
SameTable-refl d = refl

pub SameTable-trans : (d t u : Database) → SameTable d t → SameTable t u → SameTable d u
SameTable-trans d t u p q = q ∙ p

pub insert_event-SameTable : (e : EventEnvelope) → Moves SameTable (insert_event e)
unfolding insert_event
insert_event-SameTable e = record { at = λ d d' n h. ground arith }

pub save_projections-SameTable :
    (r : Outcome (List ProjectionRecord)) → Moves SameTable (save_projections r)
unfolding save_projections
save_projections-SameTable (ok rs) = record { at = λ d d' n h. ground arith }
save_projections-SameTable (raised x) = record { at = λ d d' n h. ground arith }

pub revoke_lease_capabilities-SameTable :
    (e : EventEnvelope) → Moves SameTable (revoke_lease_capabilities e)
unfolding revoke_lease_capabilities
revoke_lease_capabilities-SameTable e = record { at = λ d d' n h. ground arith }

pub SameTable-pure : {A : Type 0} (a : A) → Moves SameTable (pure a)
SameTable-pure a = Moves-pure SameTable-refl a

pub SameTable-lift : {A : Type 0} (r : Outcome A) → Moves SameTable (lift r)
SameTable-lift r = Moves-lift SameTable-refl r

pub SameTable-gets : {A : Type 0} (f : Database → A) → Moves SameTable (gets f)
SameTable-gets f = Moves-gets SameTable-refl f

pub SameTable-bind :
    {A B : Type 0} (m : Tx Database A) (f : A → Tx Database B)
    → Moves SameTable m
    → ((a : A) → Moves SameTable (f a))
    → Moves SameTable (m >>= f)
SameTable-bind m f p q = Moves-bind SameTable-trans m f p q

pub ruleset mutation_rules = (
  SameTable-pure, SameTable-lift, SameTable-gets, SameTable-bind, insert_event-SameTable,
  save_projections-SameTable, revoke_lease_capabilities-SameTable,
)

pub apply_event_mutation-SameTable :
    (reducer : Reducer) (e : EventEnvelope) (snapshots : List ProjectionRecord)
    → Moves SameTable (apply_event_mutation reducer e snapshots)
unfolding apply_event_mutation
apply_event_mutation-SameTable reducer e snapshots = search mutation_rules

pub append_within-SameTable :
    (reducer : Reducer) (e : EventEnvelope) → Moves SameTable (append_within reducer e)
unfolding append_within
append_within-SameTable reducer e = search (mutation_rules, apply_event_mutation-SameTable)

pub log_state-SameTable :
    (reducer : Reducer) (event : EventFactory) (e : PublicationQueueEntry) (former : Option String)
    → Moves SameTable (log_state reducer event e former)
unfolding log_state
log_state-SameTable reducer event e former = search (mutation_rules, append_within-SameTable)

-- The rules for the end of a transaction, past the change of a row.
pub ruleset same_table =
    (SameTable-pure, SameTable-bind, append_within-SameTable, log_state-SameTable)
