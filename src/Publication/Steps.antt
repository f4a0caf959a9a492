-- ===== src/Publication/Steps.antt =====
-- The transactions on the queue take steps of its relation.
pub mod Openings
pub mod Owners
pub mod Rules
use mathlib.Core.Path.{subst}
use mathlib.Core.List.{Memᴰ}
use aizim.Prelude.{
  ℕ, ◌+◌, ◌≡◌, refl, sym, ap, ◌∙◌, Bool, true, false, not, ◌||◌, ◌&&◌, Option, none, some, List, [],
  ◌∷◌, String, is_some, ◌==◌, ltb, Bool-cases, Option-cases, same_text, inl, inr, ◌⊎◌,
  if◌then◌else◌, arith, eq_iff,
}
use aizim.Outcome.{Failure, Outcome, ok, raised, value_error}
use aizim.Tx.{Tx, pure, gets, lift, refuse_if, ◌>>=◌, ◌>>◌}
use aizim.Tx.Rules.{Moves, bind-inv, lift-inv, gets-inv, refuse_if-inv}
use aizim.Database.{QueueState, PublicationQueueEntry, Database}
use aizim.Queue.{find_entry, claimed, update_rows, row_count, first_where, queued_entry}
use aizim.Queue.Steps.{
  QueueTable, table, inserted, next_row, changed, Change, QueueStep, insert, change, QueueSteps,
  done, and_then, QueueSteps-trans,
}
use aizim.Publication.{insert_entry, update, read, current_entry}
use aizim.Publication.Keeps.{SameTable}

abbrev pub Progress : Database → Database → Type 0
Progress d d' = QueueSteps (table d) (table d')

pub Progress-refl : (d : Database) → Progress d d
Progress-refl d = done

pub Progress-trans : (s t u : Database) → Progress s t → Progress t u → Progress s u
Progress-trans s t u p q = QueueSteps-trans _ _ _ p q

pub Progress-same : (s t u : Database) → Progress s t → SameTable t u → Progress s u
Progress-same s t u p e = subst (QueueSteps (table s)) (sym e) p

pub Moves-same : {A : Type 0} (m : Tx Database A) → Moves SameTable m → Moves Progress m
Moves-same m k = record { at = λ d d' a h. Progress-same d d d' done (k.at d d' a h) }

pub find_entry-row :
    (k : String) (q : List PublicationQueueEntry) (e : PublicationQueueEntry)
    → find_entry k q ≡ some e
    → Memᴰ e q
unfolding find_entry
find_entry-row k [] e h = ground arith
find_entry-row k (x ∷ q) e h = elim (Bool-cases (same_text x.contribution_id k)) [
  | inl p ↦ Memᴰ.head (ground arith)
  | inr p ↦ Memᴰ.tail (find_entry-row k q e (ground arith))
]

pub first_where-row :
    (p : PublicationQueueEntry → Bool) (q : List PublicationQueueEntry) (e : PublicationQueueEntry)
    → first_where p q ≡ some e
    → Memᴰ e q × (p e ≡ true)
unfolding first_where
first_where-row p [] e h = ground arith
first_where-row p (x ∷ q) e h = elim (Bool-cases (p x)) [
  | inl t ↦ elim (Option-cases (first_where p q)) [
    | inl n ↦ (Memᴰ.head (ground arith), ground arith)
    | inr (r, n) ↦
        let (m, v) = first_where-row p q r n in
        elim (Bool-cases (ltb r.enqueue_sequence x.enqueue_sequence)) [
          | inl l ↦ (Memᴰ.tail (subst (λ y. Memᴰ y q) (ground arith) m), ground arith)
          | inr l ↦ (Memᴰ.head (ground arith), ground arith)
        ]
  ]
  | inr f ↦ let (m, v) = first_where-row p q e (ground arith) in (Memᴰ.tail m, v)
]

pub current_entry-found :
    (id : String) (d : Database) (c : PublicationQueueEntry)
    → current_entry id d ≡ ok c
    → find_entry id d.publication_queue ≡ some c
unfolding current_entry
current_entry-found id d c h = ground arith

pub read-inv :
    {A : Type 0} (f : Database → Outcome A) {d d' : Database} {a : A}
    → read f d ≡ (ok a, d')
    → (d' ≡ d) × (f d ≡ ok a)
read-inv f {d} {d'} {a} h =
    let (r, t, p, q) = bind-inv (gets f) lift h in
    let (e, v) = gets-inv f d p in let (e', v') = lift-inv r t q in (e' ∙ e, sym v ∙ v')

-- Past a guard.
pub guard-inv :
    {A : Type 0} (b : Bool) (x : Failure) (k : Unit {0} → Tx Database A) {d d' : Database} {a : A}
    → (refuse_if b x >>= k) d ≡ (ok a, d')
    → (b ≡ false) × (k tt d ≡ (ok a, d'))
guard-inv b x k {d} {d'} {a} h =
    let (u, t, p, q) = bind-inv _ _ h in
    let (e, v) = refuse_if-inv b x d p in (v, subst (λ s. k tt s ≡ (ok a, d')) e q)

module _ {A : Type 0} (id : String) (k : PublicationQueueEntry → Tx Database A)
    (step : (d d' : Database) (c : PublicationQueueEntry) (a : A)
      → Memᴰ c d.publication_queue
      → k c d ≡ (ok a, d')
      → Progress d d') where
  -- A transaction that goes on from the row of a contribution.
  pub Moves-current_entry : Moves Progress (read (current_entry id) >>= k)
  Moves-current_entry = record {
    at = λ d d' a h.
        let (c, t, p, q) = bind-inv _ _ h in
        let (e, v) = read-inv (current_entry id) p in
        step d d' c a (find_entry-row id d.publication_queue c (current_entry-found id d c v))
          (subst (λ s. k c s ≡ (ok a, d')) e q);
  }

pub update-inv :
    (c : PublicationQueueEntry) (owner : String) (at : ℕ) (target : QueueState) (d d' : Database)
    {e : PublicationQueueEntry}
    → update c owner at target d ≡ (ok e, d')
    → table d' ≡ changed owner at target c (table d)
unfolding update
update-inv c owner at target d d' {e} h = ground arith

insert_entry-inv :
    (id : String) (d d' : Database) {e : PublicationQueueEntry}
    → insert_entry id d ≡ (ok e, d')
    → table d' ≡ inserted id (table d)
unfolding insert_entry
insert_entry-inv id d d' {e} h = ground arith

-- An update of a row, and what only logs after it.
pub update-Progress :
    {A : Type 0} (c : PublicationQueueEntry) (owner : String) (at : ℕ) (target : QueueState)
    (k : PublicationQueueEntry → Tx Database A)
    → ((e : PublicationQueueEntry) → Moves Progress (k e))
    → (d d' : Database) {a : A} → Memᴰ c d.publication_queue
    → Change d.publication_queue owner c target
    → (update c owner at target >>= k) d ≡ (ok a, d')
    → Progress d d'
update-Progress c owner at target k later d d' {a} row allowed h =
    let (e, t, p, q) = bind-inv _ _ h in
    Progress-trans d t d'
      (and_then done (change owner at target c row allowed (update-inv c owner at target d t p)))
      ((later e).at t d' a q)

pub insert_entry-Progress :
    {A : Type 0} (id : String) (k : PublicationQueueEntry → Tx Database A)
    → ((e : PublicationQueueEntry) → Moves Progress (k e))
    → (d d' : Database) {a : A} → find_entry id d.publication_queue ≡ none
    → (insert_entry id >>= k) d ≡ (ok a, d')
    → Progress d d'
insert_entry-Progress id k later d d' {a} free h =
    let (e, t, p, q) = bind-inv _ _ h in
    Progress-trans d t d' (and_then done (insert id free (insert_entry-inv id d t p)))
      ((later e).at t d' a q)
