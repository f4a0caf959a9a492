-- ===== src/Publication/Logs/Owners.antt =====
-- The log of what the owner of a row does.
use aizim.Prelude.{ℕ, Bool, Option, none, some, String}
use aizim.Tx.Rules.{Moves}
use aizim.Json.{JsonObject}
use aizim.Events.{EventEnvelope}
use aizim.Database.{QueueState}
use aizim.Store.{Reducer}
use aizim.Publication.{EventFactory, advance, heartbeat}
use aizim.Publication.Endings.{require_prepared, prepare, publish, fail, prepare_once}
use aizim.Publication.Logs.{Grows, IsRoutine, IsRoutineFactory, grows_rules}

module _ (reducer : Reducer) (human : String → String → Bool) (event : EventFactory)
    (routine : IsRoutineFactory event) where
  pub heartbeat-Grows :
      (id owner : String) (at : ℕ)
      → Moves (Grows reducer human) (heartbeat reducer id owner at event)
  unfolding heartbeat
  heartbeat-Grows id owner at = search grows_rules depth 20

  pub advance-Grows :
      (id owner : String) (target : QueueState) (at : ℕ)
      → Moves (Grows reducer human) (advance reducer id owner target at event)
  unfolding advance
  advance-Grows id owner target at = search grows_rules depth 20

  require_prepared-Grows :
      (id : String) (declaration delta : EventEnvelope)
      → Moves (Grows reducer human) (require_prepared id declaration delta)
  unfolding require_prepared
  require_prepared-Grows id declaration delta = search grows_rules depth 20

  pub publish-Grows :
      (id owner : String) (at : ℕ) (declaration delta : EventEnvelope)
      → IsRoutine declaration.event_type
      → IsRoutine delta.event_type
      → Moves (Grows reducer human) (publish reducer id owner at declaration delta event)
  unfolding publish
  publish-Grows id owner at declaration delta p q =
      search (grows_rules, require_prepared-Grows, routine) depth 20

  pub fail-Grows :
      (id owner : String) (at : ℕ) (failure : EventEnvelope)
      → IsRoutine failure.event_type
      → Moves (Grows reducer human) (fail reducer id owner at failure event)
  unfolding fail
  fail-Grows id owner at failure p = search (grows_rules, routine) depth 20

module _ (reducer : Reducer) (human : String → String → Bool) where
  prepare_once-Grows :
      (prepared : EventEnvelope) (existing : Option JsonObject)
      → IsRoutine prepared.event_type
      → Moves (Grows reducer human) (prepare_once reducer prepared existing)
  unfolding prepare_once
  prepare_once-Grows prepared none r = search grows_rules depth 20
  prepare_once-Grows prepared (some p) r = search grows_rules depth 20

  pub prepare-Grows :
      (id owner : String) (prepared : EventEnvelope)
      → IsRoutine prepared.event_type
      → Moves (Grows reducer human) (prepare reducer id owner prepared)
  unfolding prepare prepare_once
  prepare-Grows id owner prepared r = search (grows_rules, prepare_once-Grows) depth 20
