-- ===== src/Queue/Steps.antt =====
-- The changes that a transaction makes to the queue, as a relation.
pub mod Rows
pub mod WellFormed
use mathlib.Core.List.{Memᴰ}
use aizim.Prelude.{
  ℕ, ◌+◌, ◌≡◌, Bool, true, false, List, [], ◌∷◌, ◌++◌, String, is_some, Option, some, none,
}
use aizim.Database.{QueueState, staged, PublicationQueueEntry, Database}
use aizim.Queue.{
  can_transition, in_progress, is_queued, is_owner, find_entry, claimed, update_rows, any_active,
  queued_entry,
}

-- The rows of the queue, and the last sequence that was allocated.
pub record QueueTable : Type 0 where
  pub rows : List PublicationQueueEntry
  pub last : ℕ

abbrev pub table : Database → QueueTable
table d = record { rows = d.publication_queue; last = d.queue_sequence }

abbrev pub inserted : String → QueueTable → QueueTable
inserted id t = record { rows = t.rows ++ queued_entry id (t.last + 1) ∷ []; last = t.last + 1 }

abbrev pub next_row : String → ℕ → QueueState → PublicationQueueEntry → PublicationQueueEntry
next_row owner at target current = claimed (current.state_version + 1) owner at target current

abbrev pub changed : String → ℕ → QueueState → PublicationQueueEntry → QueueTable → QueueTable
changed owner at target current t = record {
  rows = update_rows current (claimed (current.state_version + 1) owner at target) t.rows;
  last = t.last;
}

-- What allows a row to change: a claim of a waiting row while nothing is in progress, a move of a
-- row by its owner, or a row in progress whose claim is renewed or taken over.
pub data Change (q : List PublicationQueueEntry) (owner : String) (current : PublicationQueueEntry)
    (target : QueueState) : Type 0 where
  claim :
      is_queued current.state ≡ true
      → any_active q ≡ false
      → target ≡ staged
      → Change q owner current target
  move :
      is_owner owner current ≡ true
      → can_transition current.state target ≡ true
      → Change q owner current target
  refresh :
      in_progress current.state ≡ true
      → is_some current.claimed_by ≡ true
      → target ≡ current.state
      → Change q owner current target

pub data QueueStep (t u : QueueTable) : Type 0 where
  insert : (id : String) → find_entry id t.rows ≡ none → u ≡ inserted id t → QueueStep t u
  change :
      (owner : String) (at : ℕ) (target : QueueState) (current : PublicationQueueEntry)
      → Memᴰ current t.rows
      → Change t.rows owner current target
      → u ≡ changed owner at target current t
      → QueueStep t u

-- Some steps, one after another.
pub data QueueSteps (t : QueueTable) : QueueTable → Type 0 where
  done : QueueSteps t t
  and_then : {u v : QueueTable} → QueueSteps t u → QueueStep u v → QueueSteps t v

pub QueueSteps-trans : (t u v : QueueTable) → QueueSteps t u → QueueSteps u v → QueueSteps t v
QueueSteps-trans t u _ p done = p
QueueSteps-trans t u v p (and_then q s) = and_then (QueueSteps-trans t u _ p q) s
