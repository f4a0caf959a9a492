-- ===== src/Service/Requests.antt =====
-- The requests that the service answers, one after another, on a database.
pub mod Queue
pub mod Log
pub mod LogParts
use aizim.Prelude.{ℕ, Bool, List, [], ◌∷◌, Option, String}
use aizim.Outcome.{Outcome}
use aizim.Tx.{Tx}
use aizim.Events.{AppendEventCommand, Stamp}
use aizim.Database.{QueueState, CapabilityRecord, Database}
use aizim.Store.{Reducer}
use aizim.Tokens.{revoke_capability}
use aizim.Documents.{Formats}
use aizim.Documents.Methods.{DocumentCall, after_call}
use aizim.Service.{
  append_event, approve_environment_transition, persist, enqueue_contribution, claim_next_promotion,
  advance_promotion, heartbeat_promotion, prepare_promotion, publish_promotion, fail_promotion,
  recover_expired_promotion, rebase_promotion,
}

-- The calls of the service that write to the modelled tables, with their arguments.
pub data Request : Type 0 where
  append_request : Stamp → AppendEventCommand → Request
  approve_request : Stamp → String → String → String → String → String → String → String → Request
  persist_request : Stamp → CapabilityRecord → Request
  revoke_request : String → ℕ → Request
  enqueue_request : Stamp → Stamp → AppendEventCommand → Request
  claim_request : Stamp → String → ℕ → Request
  advance_request : Stamp → String → String → QueueState → ℕ → Request
  heartbeat_request : Stamp → String → String → ℕ → Request
  prepare_request : Stamp → String → String → AppendEventCommand → Request
  publish_request :
      Stamp
      → Stamp
      → Stamp
      → String
      → String
      → ℕ
      → AppendEventCommand
      → AppendEventCommand
      → Request
  fail_request : Stamp → Stamp → String → String → ℕ → AppendEventCommand → Request
  recover_request : Stamp → String → ℕ → ℕ → Request
  rebase_request :
      Stamp
      → Stamp
      → Stamp
      → Stamp
      → String
      → String
      → ℕ
      → AppendEventCommand
      → AppendEventCommand
      → Request
  document_request : DocumentCall → Request

module _ (reducer : Reducer) (human_approval : String → String → Bool) (formats : Formats) where
  -- The database after a request, whether it was answered or refused.
  unfoldable pub serve : Request → Database → Database
  serve (append_request s c) d = (append_event reducer s c d).1
  serve (approve_request s run reviewer proposal id old new reason) d =
      (approve_environment_transition reducer human_approval s run reviewer proposal id old new
        reason d).1
  serve (persist_request s c) d = (persist reducer formats.canonical_timestamp s c d).1
  serve (revoke_request k now) d = (revoke_capability k now d).1
  serve (enqueue_request s t c) d = (enqueue_contribution reducer s t c d).1
  serve (claim_request s owner now) d = (claim_next_promotion reducer s owner now d).1
  serve (advance_request s id owner target now) d =
      (advance_promotion reducer s id owner target now d).1
  serve (heartbeat_request s id owner now) d = (heartbeat_promotion reducer s id owner now d).1
  serve (prepare_request s id owner c) d = (prepare_promotion reducer s id owner c d).1
  serve (publish_request s t u id owner now c e) d =
      (publish_promotion reducer s t u id owner now c e d).1
  serve (fail_request s t id owner now c) d = (fail_promotion reducer s t id owner now c d).1
  serve (recover_request s owner now timeout) d =
      (recover_expired_promotion reducer s owner now timeout d).1
  serve (rebase_request s t u v id owner now c e) d =
      (rebase_promotion reducer s t u v id owner now c e d).1
  serve (document_request c) d = after_call formats reducer c d

  unfoldable pub serve_all : List Request → Database → Database
  serve_all [] d = d
  serve_all (r ∷ rs) d = serve_all rs (serve r d)
