-- ===== src/Queue/Laws.antt =====
-- What an update and an insert do to the rows of the queue.
pub mod Update
use aizim.Prelude.{
  ℕ, suc, ◌+◌, ◌≤◌, ◌<◌, ◌≡◌, refl, ap, Bool, true, false, Option, none, some, List, [], ◌∷◌, ◌++◌,
  String, same_text, is_some, ◌==◌, if◌then◌else◌, arith, eq_iff, ◌⊎◌, inl, inr, Bool-cases,
  Option-cases,
}
use aizim.Database.{QueueState, queued, PublicationQueueEntry}
use aizim.Queue.{
  find_entry, claimed, is_row, update_rows, row_count, is_active, any_active, is_queued,
}

-- One row, rewritten if it is the row of the update.
abbrev pub row_after :
    PublicationQueueEntry
    → (PublicationQueueEntry → PublicationQueueEntry)
    → PublicationQueueEntry
    → PublicationQueueEntry
row_after current f e = if is_row current e then f e else e

abbrev pub map_row :
    (PublicationQueueEntry → PublicationQueueEntry)
    → Option PublicationQueueEntry
    → Option PublicationQueueEntry
map_row g none = none
map_row g (some e) = some (g e)

module _ (current : PublicationQueueEntry) (v : ℕ) (owner : String) (at : ℕ)
    (target : QueueState) where
  pub find_entry-update_rows :
      (k : String) (q : List PublicationQueueEntry)
      → find_entry k (update_rows current (claimed v owner at target) q)
        ≡ map_row (row_after current (claimed v owner at target)) (find_entry k q)
  unfolding find_entry update_rows
  find_entry-update_rows k [] = refl
  find_entry-update_rows k (e ∷ q) = ground (
    arith,
    eq_iff e.contribution_id k,
    eq_iff e.contribution_id current.contribution_id,
    find_entry-update_rows k q,
  )

pub find_entry-append :
    (k : String) (q : List PublicationQueueEntry) (x : PublicationQueueEntry)
    → find_entry k q ≡ none
    → find_entry k (q ++ x ∷ []) ≡ (if same_text x.contribution_id k then some x else none)
unfolding find_entry
find_entry-append k [] x h = refl
find_entry-append k (e ∷ q) x h =
    ground (arith, eq_iff e.contribution_id k, find_entry-append k q x)

pub find_entry-append_some :
    (k : String) (q : List PublicationQueueEntry) (x e : PublicationQueueEntry)
    → find_entry k q ≡ some e
    → find_entry k (q ++ x ∷ []) ≡ some e
unfolding find_entry
find_entry-append_some k [] x e h = ground arith
find_entry-append_some k (y ∷ q) x e h = ground (arith, find_entry-append_some k q x e)

pub find_entry-id :
    (k : String) (q : List PublicationQueueEntry) (e : PublicationQueueEntry)
    → find_entry k q ≡ some e
    → e.contribution_id ≡ k
unfolding find_entry
find_entry-id k [] e h = ground arith
find_entry-id k (x ∷ q) e h = ground (arith, eq_iff x.contribution_id k, find_entry-id k q e)

-- No contribution has two rows.
abbrev pub HasUniqueIds : List PublicationQueueEntry → Type 0
HasUniqueIds [] = Unit {0}
HasUniqueIds (e ∷ q) = (find_entry e.contribution_id q ≡ none) × HasUniqueIds q

-- The sequences rise, from above one bound to another.
abbrev pub IsRising : ℕ → List PublicationQueueEntry → ℕ → Type 0
IsRising low [] high = low ≤ high
IsRising low (e ∷ q) high = (low < e.enqueue_sequence) × IsRising e.enqueue_sequence q high

-- A row waits unclaimed at version 0, or has been claimed.
abbrev pub HasShape : PublicationQueueEntry → Type 0
HasShape e =
    ((is_queued e.state ≡ true) × (e.claimed_by ≡ none) × (e.state_version ≡ 0))
    ⊎ ((is_queued e.state ≡ false) × (is_some e.claimed_by ≡ true) × (0 < e.state_version))

abbrev pub HaveShapes : List PublicationQueueEntry → Type 0
HaveShapes [] = Unit {0}
HaveShapes (e ∷ q) = HasShape e × HaveShapes q

abbrev pub active : PublicationQueueEntry → ℕ
active e = if is_active e then 1 else 0

unfoldable pub active_count : List PublicationQueueEntry → ℕ
active_count [] = 0
active_count (e ∷ q) = active e + active_count q

pub any_active-false : (q : List PublicationQueueEntry) → any_active q ≡ false → active_count q ≡ 0
unfolding any_active active_count
any_active-false [] h = refl
any_active-false (e ∷ q) h = ground (arith, any_active-false q)

pub active_count-append :
    (q : List PublicationQueueEntry) (x : PublicationQueueEntry)
    → active_count (q ++ x ∷ []) ≡ active_count q + active x
unfolding active_count
active_count-append [] x = omega arith
active_count-append (e ∷ q) x = omega (arith, active_count-append q x)

pub HasUniqueIds-append :
    (q : List PublicationQueueEntry) (x : PublicationQueueEntry)
    → HasUniqueIds q
    → find_entry x.contribution_id q ≡ none
    → HasUniqueIds (q ++ x ∷ [])
unfolding find_entry
HasUniqueIds-append [] x u h = (refl, tt)
HasUniqueIds-append (e ∷ q) x u h = ground (
  arith,
  eq_iff e.contribution_id x.contribution_id,
  eq_iff x.contribution_id e.contribution_id,
  find_entry-append e.contribution_id q x,
  HasUniqueIds-append q x u.1,
)

pub IsRising-append :
    (low high : ℕ) (q : List PublicationQueueEntry) (x : PublicationQueueEntry)
    → IsRising low q high
    → x.enqueue_sequence ≡ high + 1
    → IsRising low (q ++ x ∷ []) (high + 1)
IsRising-append low high [] x r e = omega arith
IsRising-append low high (y ∷ q) x r e = (r.0, IsRising-append y.enqueue_sequence high q x r.1 e)

pub HaveShapes-append :
    (q : List PublicationQueueEntry) (x : PublicationQueueEntry)
    → HaveShapes q
    → HasShape x
    → HaveShapes (q ++ x ∷ [])
HaveShapes-append [] x s h = (h, tt)
HaveShapes-append (e ∷ q) x s h = (s.0, HaveShapes-append q x s.1 h)
