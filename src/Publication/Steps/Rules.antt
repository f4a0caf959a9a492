-- ===== src/Publication/Steps/Rules.antt =====
-- How the parts of a transaction move the queue.
use aizim.Prelude.{◌≡◌, refl, Bool, true, false, Option, none, some, String, is_some, arith}
use aizim.Outcome.{Failure, Outcome, ok, raised}
use aizim.Tx.{Tx, pure, gets, lift, refuse_if, transaction, ◌>>=◌}
use aizim.Tx.Rules.{
  Moves, Moves-pure, Moves-lift, Moves-gets, Moves-refuse_if, Moves-bind, refuse_if-inv,
  transaction-inv,
}
use aizim.Events.{EventEnvelope}
use aizim.Database.{PublicationQueueEntry, Database}
use aizim.Store.{Reducer, append_within}
use aizim.Publication.{EventFactory, log_state}
use aizim.Publication.Endings.{require_prepared, has_preparation, expected_preparation}
use aizim.Publication.Keeps.{append_within-SameTable, log_state-SameTable}
use aizim.Publication.Steps.{Progress, Progress-refl, Progress-trans, Moves-same}

pub Progress-pure : {A : Type 0} (a : A) → Moves Progress (pure a)
Progress-pure a = Moves-pure Progress-refl a

pub Progress-lift : {A : Type 0} (r : Outcome A) → Moves Progress (lift r)
Progress-lift r = Moves-lift Progress-refl r

pub Progress-gets : {A : Type 0} (f : Database → A) → Moves Progress (gets f)
Progress-gets f = Moves-gets Progress-refl f

pub Progress-refuse_if : (b : Bool) (x : Failure) → Moves Progress (refuse_if b x)
Progress-refuse_if b x = Moves-refuse_if Progress-refl b x

pub Progress-bind :
    {A B : Type 0} (m : Tx Database A) (f : A → Tx Database B)
    → Moves Progress m
    → ((a : A) → Moves Progress (f a))
    → Moves Progress (m >>= f)
Progress-bind m f p q = Moves-bind Progress-trans m f p q

pub Progress-transaction :
    {A : Type 0} (m : Tx Database A) → Moves Progress m → Moves Progress (transaction m)
Progress-transaction m k = record { at = λ d d' a h. k.at d d' a (transaction-inv m h) }

pub Progress-append_within :
    (reducer : Reducer) (e : EventEnvelope) → Moves Progress (append_within reducer e)
Progress-append_within reducer e = Moves-same _ (append_within-SameTable reducer e)

pub Progress-log_state :
    (reducer : Reducer) (event : EventFactory) (e : PublicationQueueEntry) (former : Option String)
    → Moves Progress (log_state reducer event e former)
Progress-log_state reducer event e former =
    Moves-same _ (log_state-SameTable reducer event e former)

pub ruleset progress_rules = (
  Progress-pure, Progress-lift, Progress-gets, Progress-refuse_if, Progress-bind,
  Progress-transaction, Progress-append_within, Progress-log_state,
)

pub gets-then :
    {A B : Type 0} (f : Database → A) (k : A → Tx Database B) (d d' : Database) {b : B}
    → (gets f >>= k) d ≡ (ok b, d')
    → k (f d) d ≡ (ok b, d')
unfolding gets ◌>>=◌
gets-then f k d d' h = h

pub require_prepared-inv :
    (id : String) (declaration delta : EventEnvelope) (d d' : Database) {u : Unit {0}}
    → require_prepared id declaration delta d ≡ (ok u, d')
    → (d' ≡ d)
      × (has_preparation (expected_preparation id declaration.payload delta.payload) d.events
          ≡ true)
unfolding require_prepared
require_prepared-inv id declaration delta d d' h =
    let (e, g) = refuse_if-inv _ _ d (gets-then _ _ d d' h) in (e, ground arith)

pub lift-then :
    {A B : Type 0} (r : Outcome A) (k : A → Tx Database B) (d d' : Database) {b : B}
    → (lift r >>= k) d ≡ (ok b, d')
    → (a : A) × (r ≡ ok a) × (k a d ≡ (ok b, d'))
unfolding lift ◌>>=◌
lift-then (ok a) k d d' h = (a, refl, h)
lift-then (raised x) k d d' h = ground arith

pub is_some-none : {A : Type 0} (o : Option A) → is_some o ≡ false → o ≡ none
is_some-none none h = refl
is_some-none (some a) h = ground arith
