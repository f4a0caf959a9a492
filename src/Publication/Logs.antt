-- ===== src/Publication/Logs.antt =====
-- The log of a transaction on the queue: it is replayable, and it approves no transition.
pub mod Openings
pub mod Owners
use aizim.Prelude.{
  ℕ, ◌≡◌, refl, sym, ap, ◌∙◌, Bool, true, false, Option, none, some, List, [], ◌∷◌, ◌++◌, String,
  arith, eq_iff, same_text,
}
use mathlib.Core.List.{Memᴰ}
use mathlib.Core.Path.{subst}
use aizim.Outcome.{Failure, Outcome, ok, raised}
use aizim.Tx.{Tx, pure, gets, lift, refuse_if, transaction, ◌>>=◌, ◌>>◌}
use aizim.Tx.Rules.{
  Moves, Moves-pure, Moves-lift, Moves-gets, Moves-refuse_if, Moves-bind, transaction-inv,
}
use aizim.Events.{
  artifact_registered, type_name, EventType, EventEnvelope, EventRecord, is_type,
  environment_transition_approved,
}
use aizim.Artifacts.{is_artifact_registered}
use aizim.Database.{QueueState, PublicationQueueEntry, Database}
use aizim.Store.{Reducer, append_within, append}
use aizim.Store.Replay.{Extends, Extends-refl, Extends-trans, Extends-of_logged, append-Extends}
use aizim.Store.Replay.Mirror.{append_within-append, append-Logs, logged}
use aizim.Publication.{EventFactory, insert_entry, update, log_state}

-- An approval of a transition has a run and an actor that were approved.
abbrev pub IsApproved : (String → String → Bool) → EventEnvelope → Type 0
IsApproved human e =
    is_type e.event_type environment_transition_approved ≡ true
    → (run : String) × (e.run_id ≡ some run) × (human run e.actor ≡ true)

abbrev pub AreApproved : (String → String → Bool) → List EventRecord → Type 0
AreApproved human [] = Unit {0}
AreApproved human (r ∷ rs) = IsApproved human r.envelope × AreApproved human rs

pub AreApproved-append :
    (human : String → String → Bool) (xs : List EventRecord) (x : EventRecord)
    → AreApproved human xs
    → IsApproved human x.envelope
    → AreApproved human (xs ++ x ∷ [])
AreApproved-append human [] x a h = (h, tt)
AreApproved-append human (y ∷ ys) x a h = (a.0, AreApproved-append human ys x a.1 h)

pub AreApproved-row :
    (human : String → String → Bool) (xs : List EventRecord) (x : EventRecord)
    → AreApproved human xs
    → Memᴰ x xs
    → IsApproved human x.envelope
AreApproved-row human [] x a m = elim m [ ]
AreApproved-row human (y ∷ ys) x a (Memᴰ.head e) =
    subst (λ (z : EventRecord). IsApproved human z.envelope) (sym e) a.0
AreApproved-row human (y ∷ ys) x a (Memᴰ.tail m) = AreApproved-row human ys x a.1 m

-- An event that registers no artifact and approves no transition.
pub record IsRoutine (t : EventType) : Type 0 where
  pub plain : is_artifact_registered t ≡ false
  pub unapproving : is_type t environment_transition_approved ≡ false

abbrev pub IsRoutineFactory : EventFactory → Type 0
IsRoutineFactory event =
    (id : String) (s : QueueState) (v : ℕ) (run owner : Option String)
    → IsRoutine (event id s v run owner).event_type

not_artifact :
    (s : EventType)
    → same_text (type_name s) "ArtifactRegistered" ≡ false
    → is_artifact_registered s ≡ false
unfolding type_name
not_artifact artifact_registered n = ground arith
not_artifact _ n = refl

-- The type of an event that was compared with a routine one.
pub is_type-IsRoutine :
    (t u : EventType)
    → same_text (type_name u) "EnvironmentTransitionApproved" ≡ false
    → same_text (type_name u) "ArtifactRegistered" ≡ false
    → is_type t u ≡ true
    → IsRoutine t
unfolding is_type type_name
is_type-IsRoutine t u p q h =
    let same = eq_iff (type_name t) (type_name u) in
    record { plain = not_artifact t (ground (arith, same)); unapproving = ground (arith, same) }

module _ (reducer : Reducer) (human : String → String → Bool) where
  -- The log grows replayably, and its approvals stay approved.
  pub record Grows (d d' : Database) : Type 0 where
    pub replayable : Extends reducer d d'
    pub approved : AreApproved human d.events → AreApproved human d'.events

  pub Grows-refl : (d : Database) → Grows d d
  Grows-refl d = record { replayable = Extends-refl reducer d; approved = λ a. a }

  pub Grows-trans : (d t u : Database) → Grows d t → Grows t u → Grows d u
  Grows-trans d t u p q = record {
    replayable = Extends-trans reducer d t u p.replayable q.replayable;
    approved = λ a. q.approved (p.approved a);
  }

  pub Grows-pure : {A : Type 0} (a : A) → Moves Grows (pure a)
  Grows-pure a = Moves-pure Grows-refl a

  pub Grows-lift : {A : Type 0} (r : Outcome A) → Moves Grows (lift r)
  Grows-lift r = Moves-lift Grows-refl r

  pub Grows-gets : {A : Type 0} (f : Database → A) → Moves Grows (gets f)
  Grows-gets f = Moves-gets Grows-refl f

  pub Grows-refuse_if : (b : Bool) (x : Failure) → Moves Grows (refuse_if b x)
  Grows-refuse_if b x = Moves-refuse_if Grows-refl b x

  pub Grows-bind :
      {A B : Type 0} (m : Tx Database A) (f : A → Tx Database B)
      → Moves Grows m
      → ((a : A) → Moves Grows (f a))
      → Moves Grows (m >>= f)
  Grows-bind m f p q = Moves-bind Grows-trans m f p q

  pub Grows-transaction :
      {A : Type 0} (m : Tx Database A) → Moves Grows m → Moves Grows (transaction m)
  Grows-transaction m k = record { at = λ d d' a h. k.at d d' a (transaction-inv m h) }

  Grows-tables : (d d' : Database) → logged d' ≡ logged d → Grows d d'
  Grows-tables d d' e = record {
    replayable = Extends-of_logged reducer d d' e;
    approved = subst (λ (t : Database). AreApproved human t.events) (sym e);
  }

  pub Grows-update :
      (c : PublicationQueueEntry) (owner : String) (at : ℕ) (target : QueueState)
      → Moves Grows (update c owner at target)
  unfolding update
  Grows-update c owner at target = record { at = λ d d' e h. Grows-tables d d' (ground arith) }

  pub Grows-insert_entry : (id : String) → Moves Grows (insert_entry id)
  unfolding insert_entry
  Grows-insert_entry id = record { at = λ d d' e h. Grows-tables d d' (ground arith) }

  pub append-Grows : (e : EventEnvelope) → IsApproved human e → Moves Grows (append reducer e)
  append-Grows e a = record {
    at = λ d d' x h.
        let (log, made) = append-Logs reducer e d d' x h in
        record {
          replayable = append-Extends reducer e d d' x h;
          approved = λ before.
              subst (AreApproved human) (sym log) (
                AreApproved-append human d.events x before (subst (IsApproved human) (sym made) a));
        };
  }

  pub Grows-append_within :
      (e : EventEnvelope) → IsRoutine e.event_type → Moves Grows (append_within reducer e)
  Grows-append_within e r = record {
    at = λ d d' x h.
        (append-Grows e (λ t. ground arith)).at d d' x
          (append_within-append reducer e d d' x r.plain h);
  }

  pub Grows-log_state :
      (event : EventFactory) (e : PublicationQueueEntry) (former : Option String)
      → IsRoutineFactory event
      → Moves Grows (log_state reducer event e former)
  unfolding log_state
  Grows-log_state event e former r =
      Grows-bind _ _ (Grows-bind _ _ (Grows-gets _) (λ v. Grows-lift v))
        (λ run. Grows-append_within _ (r _ _ _ run _))

  pub Grows-guard :
      {A : Type 0} (b : Bool) (x : Failure) (k : Unit {0} → Tx Database A)
      → (b ≡ false → Moves Grows (k tt))
      → Moves Grows (refuse_if b x >>= k)
  unfolding refuse_if ◌>>=◌
  Grows-guard true x k m = record { at = λ d d' a h. ground arith }
  Grows-guard false x k m = m refl

pub ruleset grows_rules = (
  Grows-pure, Grows-lift, Grows-gets, Grows-refuse_if, Grows-bind, Grows-transaction, Grows-update,
  Grows-insert_entry, Grows-append_within, Grows-log_state,
)
