-- ===== src/Queue/Steps/Rows.antt =====
-- What becomes of a row in the steps of the queue.
use mathlib.Core.Path.{subst}
use aizim.Prelude.{
  if◌then◌else◌, ℕ, ◌+◌, ◌≤◌, ◌<◌, ◌≡◌, refl, sym, ap, ◌∙◌, ◌⊎◌, inl, inr, Bool, true, false, some,
  List, String, arith, eq_iff,
}
use aizim.Database.{
  QueueState, queued, staged, verified, materialized, published, quarantined, PublicationQueueEntry,
}
use aizim.Queue.{can_transition, find_entry, claimed, is_row}
use aizim.Queue.Laws.{
  find_entry-update_rows, find_entry-append_some, find_entry-id, row_after, map_row,
}
use aizim.Queue.Steps.{
  QueueTable, Change, claim, move, refresh, QueueStep, insert, change, QueueSteps, done, and_then,
}
use aizim.Queue.Steps.WellFormed.{IsWellFormed, QueueSteps-IsWellFormed, find_entry-Mem}

-- How far a promotion has come.
abbrev pub stage : QueueState → ℕ
stage queued = 0
stage staged = 1
stage verified = 2
stage materialized = 3
stage published = 4
stage quarantined = 4

-- A row later on: the row itself, or, where it had not ended, one of a higher version that has come
-- at least as far, claimed, with the same contribution and sequence.
pub record IsLater (e f : PublicationQueueEntry) : Type 0 where
  pub same_id : f.contribution_id ≡ e.contribution_id
  pub same_sequence : f.enqueue_sequence ≡ e.enqueue_sequence
  pub further : stage e.state ≤ stage f.state
  pub version : (f ≡ e) ⊎ ((e.state_version < f.state_version) × (stage e.state < 4))

IsLater-refl : (e : PublicationQueueEntry) → IsLater e e
IsLater-refl e = record {
  same_id = refl;
  same_sequence = refl;
  further = omega arith;
  version = inl refl;
}

IsLater-trans : (e f g : PublicationQueueEntry) → IsLater e f → IsLater f g → IsLater e g
IsLater-trans e f g p q = record {
  same_id = q.same_id ∙ p.same_id;
  same_sequence = q.same_sequence ∙ p.same_sequence;
  further = omega (arith, p.further, q.further);
  version = elim p.version [
    | inl s ↦ elim q.version [
      | inl t ↦ inl (t ∙ s)
      | inr t ↦ inr (
          subst
            (λ (x : PublicationQueueEntry).
              (x.state_version < g.state_version) × (stage x.state < 4))
            s t)
    ]
    | inr s ↦ elim q.version [
      | inl t ↦ inr (
          subst
            (λ (x : PublicationQueueEntry).
              (e.state_version < x.state_version) × (stage e.state < 4))
            (sym t) s)
      | inr t ↦ inr (omega (arith, s.0, t.0), s.1)
    ]
  ];
}

Change-IsLater :
    (q : List PublicationQueueEntry) (owner : String) (at : ℕ) (target : QueueState)
    (c : PublicationQueueEntry)
    → Change q owner c target
    → IsLater c (claimed (c.state_version + 1) owner at target c)
unfolding can_transition
Change-IsLater q owner at target c k = record {
  same_id = refl;
  same_sequence = refl;
  further = (forward k).0;
  version = inr (omega arith, (forward k).1);
}
  where
    forward : Change q owner c target → (stage c.state ≤ stage target) × (stage c.state < 4)
    forward (claim w a e) = (ground arith, ground arith)
    forward (move o m) = (ground arith, ground arith)
    forward (refresh p k e) = (ground arith, ground arith)

row-IsLater :
    (c e : PublicationQueueEntry) (v : ℕ) (owner : String) (at : ℕ) (target : QueueState) (b : Bool)
    → (b ≡ true → e ≡ c)
    → IsLater c (claimed v owner at target c)
    → IsLater e (if b then claimed v owner at target e else e)
row-IsLater c e v owner at target true same l =
    subst (λ x. IsLater x (claimed v owner at target x)) (sym (same refl)) l
row-IsLater c e v owner at target false same l = IsLater-refl e

same_row :
    (q : List PublicationQueueEntry) (c e : PublicationQueueEntry) (k : String)
    → find_entry c.contribution_id q ≡ some c
    → find_entry k q ≡ some e
    → is_row c e ≡ true
    → e ≡ c
same_row q c e k found h r =
    let name = find_entry-id k q e h in
    let ids = eq_iff e.contribution_id c.contribution_id in
    let same : c.contribution_id ≡ k = ground (arith, ids) in
    let there = subst (λ x. find_entry x q ≡ some c) same found in ground arith

QueueStep-IsLater :
    (t u : QueueTable) (k : String) (e : PublicationQueueEntry)
    → QueueStep t u
    → IsWellFormed t
    → find_entry k t.rows ≡ some e
    → (f : PublicationQueueEntry) × (find_entry k u.rows ≡ some f) × IsLater e f
QueueStep-IsLater t u k e (insert id free i) w h =
    (e, ap (λ x. find_entry k x.rows) i ∙ find_entry-append_some k t.rows _ e h, IsLater-refl e)
QueueStep-IsLater t u k e (change owner at target c m g i) w h =
    let found = find_entry-Mem t.rows c w.unique m in
    let after =
      ap (λ x. find_entry k x.rows) i
      ∙ find_entry-update_rows c (c.state_version + 1) owner at target k t.rows
      ∙ ap (map_row (row_after c (claimed (c.state_version + 1) owner at target))) h in
    (
      row_after c (claimed (c.state_version + 1) owner at target) e,
      after,
      row-IsLater c e _ owner at target (is_row c e) (same_row t.rows c e k found h)
          (Change-IsLater t.rows owner at target c g),
    )

-- A row of a well-formed queue stays through any steps, and is later there.
pub QueueSteps-IsLater :
    (t u : QueueTable) (k : String) (e : PublicationQueueEntry)
    → QueueSteps t u
    → IsWellFormed t
    → find_entry k t.rows ≡ some e
    → (f : PublicationQueueEntry) × (find_entry k u.rows ≡ some f) × IsLater e f
QueueSteps-IsLater t _ k e done w h = (e, h, IsLater-refl e)
QueueSteps-IsLater t u k e (and_then {u = v} s n) w h =
    let (f, found, p) = QueueSteps-IsLater t v k e s w h in
    let (g, found', q) = QueueStep-IsLater v u k f n (QueueSteps-IsWellFormed t v s w) found in
    (g, found', IsLater-trans e f g p q)
