-- ===== src/Orchestration/Statuses.antt =====
-- The states that a reduction of an orchestration event allows.
use mathlib.Core.Path.{subst}
use aizim.Prelude.{
  none, ◌||◌, inl, inr, ◌⊎◌, ◌≡◌, refl, sym, ap, ◌∙◌, Bool, true, false, not, Option, some, List,
  [], ◌∷◌, String, same_text, arith, eq_iff,
}
use aizim.Outcome.{
  Failure, Outcome, ok, raised, raise_if, ◌>>=◌, bind-ok_inv, projection_authority_error,
}
use aizim.Json.{JsonObject, JsonValue, null, string, get, get_text, put}
use aizim.Json.Laws.{get-put}
use aizim.Events.{
  controller_started, controller_stopped, controller_crashed, worker_task_claimed,
  worker_task_dispatch_planned, worker_task_completed, worker_task_failed, worker_task_interrupted,
  EventType, EventEnvelope,
}
use aizim.Projections.{ProjectionRecord, find_record, contains}
use aizim.Orchestration.{
  reduce_orchestration_payload, entity_of, merged_payload, previous_payload, allowed_previous,
  status_of, target_status, is_text, is_none,
}

bind-goes : {A B : Type 0} (m : Outcome A) (f : A → Outcome B) {a : A} → m ≡ ok a → (m >>= f) ≡ f a
bind-goes m f e = ap (λ r. r >>= f) e

raise_if-inv : (b : Bool) (x : Failure) (u : Unit {0}) → raise_if b x ≡ ok u → b ≡ false
raise_if-inv true x u h = ground arith
raise_if-inv false x u h = refl

-- A status that is missing, or that is `null`.
pub data IsAbsent : Option JsonValue → Type 0 where
  missing : IsAbsent none
  nothing : IsAbsent (some null)

-- The life of a controller and of an execution: the status before an event, and the status after it.
pub data Precedes : Option JsonValue → EventType → Option String → Type 0 where
  first_start : {s : Option JsonValue} → IsAbsent s → Precedes s controller_started (some "running")
  restart : Precedes (some (string "stopped")) controller_started (some "running")
  restart_after_crash : Precedes (some (string "crashed")) controller_started (some "running")
  stop : Precedes (some (string "running")) controller_stopped (some "stopped")
  crash : Precedes (some (string "running")) controller_crashed (some "crashed")
  claim : {s : Option JsonValue} → IsAbsent s → Precedes s worker_task_claimed (some "claimed")
  plan : Precedes (some (string "claimed")) worker_task_dispatch_planned (some "planned")
  complete : Precedes (some (string "planned")) worker_task_completed (some "completed")
  fail_claimed : Precedes (some (string "claimed")) worker_task_failed (some "failed")
  fail_planned : Precedes (some (string "planned")) worker_task_failed (some "failed")
  interrupt_claimed :
      Precedes (some (string "claimed")) worker_task_interrupted (some "interrupted")
  interrupt_planned :
      Precedes (some (string "planned")) worker_task_interrupted (some "interrupted")

is_none-IsAbsent : (s : Option JsonValue) → is_none s ≡ true → IsAbsent s
unfolding is_none
is_none-IsAbsent none h = IsAbsent.missing
is_none-IsAbsent (some null) h = IsAbsent.nothing
is_none-IsAbsent (some _) h = ground arith

is_text-eq : (s : Option JsonValue) (t : String) → is_text s t ≡ true → some (string t) ≡ s
unfolding is_text
is_text-eq none t h = ground arith
is_text-eq (some (string u)) t h = ap (λ x. some (string x)) (sym ((eq_iff u t).0 h))
is_text-eq (some _) t h = ground arith

or-cases : (a b : Bool) → (a || b) ≡ true → (a ≡ true) ⊎ (b ≡ true)
or-cases true b h = inl refl
or-cases false b h = inr h

-- A step from a text is one from a status that is that text.
at_text :
    {e : EventType} {r : Option String} (s : Option JsonValue) (t : String)
    → Precedes (some (string t)) e r
    → is_text s t ≡ true
    → Precedes s e r
at_text {e} {r} s t p h = subst (λ x. Precedes x e r) (is_text-eq s t h) p

module _ (s : Option JsonValue) where
  allowed_previous-Precedes :
      (t : EventType) → allowed_previous t s ≡ true → Precedes s t (some (target_status t))
  unfolding allowed_previous target_status
  allowed_previous-Precedes controller_started h =
      elim (or-cases (is_none s || is_text s "stopped") _ h) [
        | inl a ↦ elim (or-cases (is_none s) _ a) [
          | inl b ↦ Precedes.first_start (is_none-IsAbsent s b)
          | inr b ↦ at_text s "stopped" Precedes.restart b
        ]
        | inr a ↦ at_text s "crashed" Precedes.restart_after_crash a
      ]
  allowed_previous-Precedes controller_stopped h = at_text s "running" Precedes.stop h
  allowed_previous-Precedes controller_crashed h = at_text s "running" Precedes.crash h
  allowed_previous-Precedes worker_task_claimed h = Precedes.claim (is_none-IsAbsent s h)
  allowed_previous-Precedes worker_task_dispatch_planned h = at_text s "claimed" Precedes.plan h
  allowed_previous-Precedes worker_task_completed h = at_text s "planned" Precedes.complete h
  allowed_previous-Precedes worker_task_failed h = elim (or-cases (is_text s "claimed") _ h) [
    | inl a ↦ at_text s "claimed" Precedes.fail_claimed a
    | inr a ↦ at_text s "planned" Precedes.fail_planned a
  ]
  allowed_previous-Precedes worker_task_interrupted h = elim (or-cases (is_text s "claimed") _ h) [
    | inl a ↦ at_text s "claimed" Precedes.interrupt_claimed a
    | inr a ↦ at_text s "planned" Precedes.interrupt_planned a
  ]
  allowed_previous-Precedes _ h = ground arith

-- A reduction that succeeds has found an entity and its stored payload, if there is one, and
-- follows the life of a controller or of an execution: a controller starts while it has no status
-- or after it has stopped or crashed, and stops or crashes while it is running; an execution is
-- claimed while it has no status, is planned when it is claimed, completes when it is planned, and
-- fails or is interrupted when it is claimed or planned. The payload has the status that this step
-- leads to.
pub reduce-allowed :
    (name : String) (snapshots : List ProjectionRecord) (event : EventEnvelope)
    (payload : JsonObject)
    → reduce_orchestration_payload name snapshots event ≡ ok payload
    → (entity : String) × (previous : Option JsonObject) × (entity_of name event.event_type
          event.payload
        ≡ ok entity)
      × (previous_payload name (find_record name entity snapshots) ≡ ok previous)
      × Precedes (status_of previous) event.event_type (get_text "status" payload)
unfolding reduce_orchestration_payload get_text
reduce-allowed name snapshots event payload h =
    let (entity, e, h1) = bind-ok_inv (entity_of name event.event_type event.payload) _ payload h in
    let (previous, p, h2) =
      bind-ok_inv (previous_payload name (find_record name entity snapshots)) _ payload h1 in
    let (u, a, h3) =
      bind-ok_inv
        (raise_if (not (allowed_previous event.event_type (status_of previous)))
          (projection_authority_error name "transition is not allowed"))
        _ payload h2 in
    let (merged, m, h4) =
      bind-ok_inv (merged_payload name event.event_type previous event.payload) _ payload h3 in
    let allowed = raise_if-inv _ _ u a in
    let kept = get-put "status" "status" (string (target_status event.event_type)) merged in
    let status : some (target_status event.event_type) ≡ get_text "status" payload =
      ground (arith, kept) in
    (
      entity,
      previous,
      e,
      p,
      subst (Precedes (status_of previous) event.event_type) status
          (allowed_previous-Precedes (status_of previous) event.event_type (ground arith)),
    )

-- The statuses at which an execution has ended.
abbrev pub ended_statuses : List String
ended_statuses = "completed" ∷ "failed" ∷ "interrupted" ∷ []

ended-cases :
    (s : String)
    → contains s ended_statuses ≡ true
    → (s ≡ "completed") ⊎ ((s ≡ "failed") ⊎ (s ≡ "interrupted"))
unfolding contains
ended-cases s h = ground (arith, eq_iff "completed" s, eq_iff "failed" s, eq_iff "interrupted" s)

-- A status that no event may follow.
denied :
    (t : EventType) (s : String)
    → same_text s "stopped" ≡ false
    → same_text s "crashed" ≡ false
    → same_text s "running" ≡ false
    → same_text s "claimed" ≡ false
    → same_text s "planned" ≡ false
    → allowed_previous t (some (string s)) ≡ false
unfolding allowed_previous is_text is_none
denied controller_started s a b c d e = ground arith
denied controller_stopped s a b c d e = c
denied controller_crashed s a b c d e = c
denied worker_task_claimed s a b c d e = refl
denied worker_task_dispatch_planned s a b c d e = d
denied worker_task_completed s a b c d e = e
denied worker_task_failed s a b c d e = ground arith
denied worker_task_interrupted s a b c d e = ground arith
denied _ s a b c d e = refl

-- No event follows the end of an execution.
ended-denied :
    (t : EventType) (s : String)
    → contains s ended_statuses ≡ true
    → allowed_previous t (some (string s)) ≡ false
unfolding allowed_previous is_text is_none
ended-denied t s h = elim (ended-cases s h) [
  | inl e ↦ at "completed" e (denied t "completed" refl refl refl refl refl)
  | inr (inl e) ↦ at "failed" e (denied t "failed" refl refl refl refl refl)
  | inr (inr e) ↦ at "interrupted" e (denied t "interrupted" refl refl refl refl refl)
]
  where
    at :
        (u : String)
        → s ≡ u
        → allowed_previous t (some (string u)) ≡ false
        → allowed_previous t (some (string s)) ≡ false
    at u e = subst (λ v. allowed_previous t (some (string v)) ≡ false) (sym e)

-- Where the stored payload of an event's entity has the status of an execution that has completed,
-- failed or been interrupted, the reduction is refused: the transition is not allowed.
pub reduce-ended :
    (name entity s : String) (snapshots : List ProjectionRecord) (event : EventEnvelope)
    (previous : JsonObject)
    → entity_of name event.event_type event.payload ≡ ok entity
    → previous_payload name (find_record name entity snapshots) ≡ ok (some previous)
    → get "status" previous ≡ some (string s)
    → contains s ended_statuses ≡ true
    → reduce_orchestration_payload name snapshots event
      ≡ raised (projection_authority_error name "transition is not allowed")
unfolding reduce_orchestration_payload
reduce-ended name entity s snapshots event previous e p g h =
    let denied = ended-denied event.event_type s h in
    bind-goes (entity_of name event.event_type event.payload) _ e
    ∙ bind-goes (previous_payload name (find_record name entity snapshots)) _ p
    ∙ ap
        (λ b.
          raise_if (not b) (projection_authority_error name "transition is not allowed") >>= λ x.
          merged_payload name event.event_type (some previous) event.payload >>= λ merged.
          ok (put "status" (string (target_status event.event_type)) merged))
        (ap (allowed_previous event.event_type) g ∙ denied)
