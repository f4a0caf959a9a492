-- ===== src/Publication/Steps/Owners.antt =====
-- The transactions of the owner of a row, as steps of the queue's relation.
use mathlib.Core.Path.{subst}
use mathlib.Core.List.{Memᴰ}
use aizim.Prelude.{ℕ, refl, sym, Option, none, some, String, arith}
use aizim.Tx.Rules.{Moves, bind-inv}
use aizim.Json.{JsonObject}
use aizim.Events.{EventEnvelope}
use aizim.Database.{QueueState, published, quarantined, Database}
use aizim.Queue.Steps.{move, refresh}
use aizim.Store.{Reducer}
use aizim.Publication.{EventFactory, advance, heartbeat}
use aizim.Publication.Endings.{prepare, publish, fail, prepare_once}
use aizim.Publication.Steps.{Progress, guard-inv, Moves-current_entry, update-Progress}
use aizim.Publication.Steps.Rules.{
  Progress-pure, Progress-gets, Progress-refuse_if, Progress-bind, Progress-transaction,
  progress_rules, require_prepared-inv,
}

module _ (reducer : Reducer) where
  pub heartbeat-Moves :
      (id owner : String) (at : ℕ) (event : EventFactory)
      → Moves Progress (heartbeat reducer id owner at event)
  unfolding heartbeat
  heartbeat-Moves id owner at event = Progress-transaction _ (
      Moves-current_entry id _ (λ d d' c a row h.
        let (g, rest) = guard-inv _ _ _ h in
        update-Progress c owner at c.state _ (λ e. search progress_rules) d d' row
          (refresh (ground arith) (ground arith) refl) rest))

  pub advance-Moves :
      (id owner : String) (target : QueueState) (at : ℕ) (event : EventFactory)
      → Moves Progress (advance reducer id owner target at event)
  unfolding advance
  advance-Moves id owner target at event = Progress-bind _ _ (Progress-refuse_if _ _) (λ _.
      Progress-transaction _ (
        Moves-current_entry id _ (λ d d' c a row h.
          let (g, rest) = guard-inv _ _ _ h in
          let (g', rest') = guard-inv _ _ _ rest in
          update-Progress c owner at target _ (λ e. search progress_rules) d d' row
            (move (ground arith) (ground arith)) rest')))

  prepare_once-Moves :
      (prepared : EventEnvelope) (existing : Option JsonObject)
      → Moves Progress (prepare_once reducer prepared existing)
  unfolding prepare_once
  prepare_once-Moves prepared none = search progress_rules
  prepare_once-Moves prepared (some p) = search progress_rules

  pub prepare-Moves :
      (id owner : String) (prepared : EventEnvelope)
      → Moves Progress (prepare reducer id owner prepared)
  unfolding prepare prepare_once
  prepare-Moves id owner prepared = Progress-transaction _ (
      Moves-current_entry id _ (λ d d' c a row h.
        (Progress-bind _ _ (Progress-refuse_if _ _) (λ _.
            Progress-bind _ _ (Progress-refuse_if _ _) (λ _.
              Progress-bind _ _ (Progress-gets _) (λ existing.
                Progress-bind _ _ (prepare_once-Moves prepared existing)
                  (λ _. Progress-pure c))))).at
          d d' a h))

  pub publish-Moves :
      (id owner : String) (at : ℕ) (declaration delta : EventEnvelope) (event : EventFactory)
      → Moves Progress (publish reducer id owner at declaration delta event)
  unfolding publish
  publish-Moves id owner at declaration delta event = Progress-transaction _ (
      Moves-current_entry id _ (λ d d' c a row h.
        let (g, rest) = guard-inv _ _ _ h in
        let (u, t, p, q) = bind-inv _ _ rest in
        let (same, prepared) = require_prepared-inv id declaration delta d t p in
        subst (λ x. Progress x d') same
          (update-Progress c owner at published _ (λ e. search progress_rules) t d'
            (subst (λ (x : Database). Memᴰ c x.publication_queue) (sym same) row)
            (move (ground arith) (ground arith)) q)))

  pub fail-Moves :
      (id owner : String) (at : ℕ) (failure : EventEnvelope) (event : EventFactory)
      → Moves Progress (fail reducer id owner at failure event)
  unfolding fail
  fail-Moves id owner at failure event = Progress-transaction _ (
      Moves-current_entry id _ (λ d d' c a row h.
        let (g, rest) = guard-inv _ _ _ h in
        update-Progress c owner at quarantined _ (λ e. search progress_rules) d d' row
          (move (ground arith) (ground arith)) rest))
