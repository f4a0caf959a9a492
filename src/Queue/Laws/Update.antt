-- ===== src/Queue/Laws/Update.antt =====
-- The update of the one row that a step has read.
use aizim.Prelude.{ℕ, ◌+◌, ◌<◌, ◌≡◌, refl, false, none, some, List, [], ◌∷◌, String, arith, eq_iff}
use aizim.Database.{QueueState, PublicationQueueEntry}
use aizim.Queue.{find_entry, claimed, update_rows, is_queued}
use aizim.Queue.Laws.{
  find_entry-update_rows, HasUniqueIds, IsRising, HaveShapes, active, active_count,
}

module _ (current : PublicationQueueEntry) (v : ℕ) (owner : String) (at : ℕ)
    (target : QueueState) where
  abbrev after : List PublicationQueueEntry → List PublicationQueueEntry
  after q = update_rows current (claimed v owner at target) q

  update_rows-none :
      (q : List PublicationQueueEntry) → find_entry current.contribution_id q ≡ none → after q ≡ q
  unfolding find_entry update_rows
  update_rows-none [] h = refl
  update_rows-none (e ∷ q) h =
      ground (arith, eq_iff e.contribution_id current.contribution_id, update_rows-none q)

  pub HasUniqueIds-update_rows :
      (q : List PublicationQueueEntry) → HasUniqueIds q → HasUniqueIds (after q)
  unfolding update_rows
  HasUniqueIds-update_rows [] u = tt
  HasUniqueIds-update_rows (e ∷ q) u = ground (
    arith,
    find_entry-update_rows current v owner at target e.contribution_id q,
    HasUniqueIds-update_rows q u.1,
  )

  pub IsRising-update_rows :
      (low high : ℕ) (q : List PublicationQueueEntry)
      → IsRising low q high
      → IsRising low (after q) high
  unfolding update_rows
  IsRising-update_rows low high [] r = r
  IsRising-update_rows low high (e ∷ q) r =
      ground (arith, IsRising-update_rows e.enqueue_sequence high q r.1)

  pub HaveShapes-update_rows :
      (q : List PublicationQueueEntry)
      → 0 < v
      → is_queued target ≡ false
      → HaveShapes q
      → HaveShapes (after q)
  unfolding update_rows
  HaveShapes-update_rows [] p t s = tt
  HaveShapes-update_rows (e ∷ q) p t s = ground (arith, HaveShapes-update_rows q p t s.1)

  -- Of the rows only the one that was read changes its part of the count.
  pub active_count-update_rows :
      (q : List PublicationQueueEntry)
      → HasUniqueIds q
      → find_entry current.contribution_id q ≡ some current
      → active_count (after q) + active current
        ≡ active_count q + active (claimed v owner at target current)
  unfolding active_count update_rows find_entry
  active_count-update_rows [] u h = ground arith
  active_count-update_rows (e ∷ q) u h = ground (
    arith,
    eq_iff e.contribution_id current.contribution_id,
    update_rows-none q,
    active_count-update_rows q u.1,
  )
