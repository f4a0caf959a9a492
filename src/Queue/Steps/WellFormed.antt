-- ===== src/Queue/Steps/WellFormed.antt =====
-- Well-formed queues, and that the steps keep them.
use mathlib.Core.Path.{subst}
use mathlib.Core.List.{Memᴰ}
use aizim.Prelude.{
  ℕ, ◌+◌, ◌≤◌, ◌≡◌, refl, sym, inl, false, none, some, List, [], ◌∷◌, String, arith, eq_refl,
  eq_iff,
}
use aizim.Database.{QueueState, PublicationQueueEntry}
use aizim.Queue.{can_transition, is_queued, find_entry, queued_entry}
use aizim.Queue.Laws.{
  HasUniqueIds, IsRising, HaveShapes, active, active_count, any_active-false, active_count-append,
  HasUniqueIds-append, IsRising-append, HaveShapes-append,
}
use aizim.Queue.Laws.Update.{
  HasUniqueIds-update_rows, IsRising-update_rows, HaveShapes-update_rows, active_count-update_rows,
}
use aizim.Queue.Steps.{
  QueueTable, next_row, Change, claim, move, refresh, QueueStep, insert, change, QueueSteps, done,
  and_then,
}

-- One row for a contribution, sequences that rise up to the last one, rows that wait or were
-- claimed, and at most one promotion in progress.
pub record IsWellFormed (t : QueueTable) : Type 0 where
  pub unique : HasUniqueIds t.rows
  pub rising : IsRising 0 t.rows t.last
  pub shaped : HaveShapes t.rows
  pub single : active_count t.rows ≤ 1

find_entry-ne :
    (q : List PublicationQueueEntry) (e x : PublicationQueueEntry)
    → find_entry x.contribution_id q ≡ none
    → Memᴰ e q
    → x.contribution_id ≡ e.contribution_id
    → ⊥
unfolding find_entry
find_entry-ne [] e x h m r = elim m [ ]
find_entry-ne (y ∷ q) e x h (Memᴰ.head p) r = ground (arith, eq_refl e.contribution_id, p, r)
find_entry-ne (y ∷ q) e x h (Memᴰ.tail p) r = ground (arith, find_entry-ne q e x, p)

-- Of unique rows, each is the one that its contribution finds.
pub find_entry-Mem :
    (q : List PublicationQueueEntry) (e : PublicationQueueEntry)
    → HasUniqueIds q
    → Memᴰ e q
    → find_entry e.contribution_id q ≡ some e
unfolding find_entry
find_entry-Mem [] e u m = elim m [ ]
find_entry-Mem (x ∷ q) e u (Memᴰ.head p) = ground (arith, eq_refl e.contribution_id, p)
find_entry-Mem (x ∷ q) e u (Memᴰ.tail p) = ground (
  arith,
  find_entry-Mem q e u.1 p,
  find_entry-ne q e x u.0 p,
  eq_iff x.contribution_id e.contribution_id,
)

-- The target of a change is never the waiting state.
pub Change-not_queued :
    (q : List PublicationQueueEntry) (owner : String) (c : PublicationQueueEntry)
    (target : QueueState)
    → Change q owner c target
    → is_queued target ≡ false
unfolding can_transition
Change-not_queued q owner c target (claim w a e) = ground (arith, e)
Change-not_queued q owner c target (move o m) = ground arith
Change-not_queued q owner c target (refresh p k e) = ground arith

Change-active :
    (q : List PublicationQueueEntry) (owner : String) (at : ℕ) (c : PublicationQueueEntry)
    (target : QueueState)
    → Change q owner c target
    → active_count q ≤ 1
    → active_count q + active (next_row owner at target c) ≤ 1 + active c
unfolding can_transition
Change-active q owner at c target (claim w a e) h = ground (arith, any_active-false q a)
Change-active q owner at c target (move o m) h = ground arith
Change-active q owner at c target (refresh p k e) h = ground arith

pub QueueStep-IsWellFormed : (t u : QueueTable) → QueueStep t u → IsWellFormed t → IsWellFormed u
QueueStep-IsWellFormed t u (insert id free e) w = subst IsWellFormed (sym e) (record {
  unique = HasUniqueIds-append t.rows _ w.unique free;
  rising = IsRising-append 0 t.last t.rows _ w.rising refl;
  shaped = HaveShapes-append t.rows _ w.shaped (inl (refl, refl, refl));
  single = omega (arith, active_count-append t.rows (queued_entry id (t.last + 1)), w.single);
})
QueueStep-IsWellFormed t u (change owner at target c m k e) w = subst IsWellFormed (sym e) (record {
  unique = HasUniqueIds-update_rows c _ owner at target t.rows w.unique;
  rising = IsRising-update_rows c _ owner at target 0 t.last t.rows w.rising;
  shaped =
      HaveShapes-update_rows c _ owner at target t.rows (omega arith)
        (Change-not_queued t.rows owner c target k) w.shaped;
  single = omega (
    arith,
    active_count-update_rows c (c.state_version + 1) owner at target t.rows w.unique
        (find_entry-Mem t.rows c w.unique m),
    Change-active t.rows owner at c target k w.single,
  );
})

pub QueueSteps-IsWellFormed : (t u : QueueTable) → QueueSteps t u → IsWellFormed t → IsWellFormed u
QueueSteps-IsWellFormed t _ done w = w
QueueSteps-IsWellFormed t u (and_then s k) w =
    QueueStep-IsWellFormed _ u k (QueueSteps-IsWellFormed t _ s w)
