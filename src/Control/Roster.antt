-- ===== src/Control/Roster.antt =====
-- What the registration of a worker and the assignment of a task require.
use mathlib.Core.Path.{subst}
use aizim.Prelude.{
  ℕ, ◌≡◌, refl, sym, ap, ◌∙◌, Bool, true, false, not, Option, none, some, String, is_some, arith,
}
use aizim.Outcome.{Failure, ok, raised, control_operation_error}
use aizim.Tx.{Tx, gets, lift, refuse_if, ◌>>=◌}
use aizim.Tx.Rules.{bind-inv, bind-ok, gets-inv, lift-inv}
use aizim.Json.{JsonObject}
use aizim.Events.{Stamp}
use aizim.Projections.{ProjectionRecord, find_record, is_registered}
use aizim.Database.{Database}
use aizim.Store.{Reducer}
use aizim.Publication.Steps.{guard-inv}
use aizim.Control.{
  AgentRole, query_projection, projection_version, validate_worker_id, register_worker, assign_task,
  validate_task, controller_id, version_or_raise,
}

query_projection-inv :
    (name entity : String) (d d' : Database) {r : Option ProjectionRecord}
    → query_projection name entity d ≡ (ok r, d')
    → (d' ≡ d) × (r ≡ find_record name entity d.projections)
unfolding query_projection
query_projection-inv name entity d d' h = let (g, rest) = guard-inv _ _ _ h in gets-inv _ d rest

query_projection-ok :
    (name entity : String) (d : Database)
    → is_registered name ≡ true
    → query_projection name entity d ≡ (ok (find_record name entity d.projections), d)
unfolding query_projection gets ◌>>=◌ refuse_if
query_projection-ok name entity d h = ground arith

version_or_raise-inv :
    (r : Option ProjectionRecord) (v : ℕ)
    → version_or_raise r ≡ ok v
    → (x : ProjectionRecord) × (r ≡ some x) × (v ≡ x.version)
version_or_raise-inv none v h = ground arith
version_or_raise-inv (some x) v h = (x, refl, ground arith)

guard-ok :
    {A : Type 0} (b : Bool) (x : Failure) (k : Unit {0} → Tx Database A) (d : Database)
    → b ≡ false
    → (refuse_if b x >>= k) d ≡ k tt d
unfolding ◌>>=◌ refuse_if
guard-ok true x k d h = ground arith
guard-ok false x k d h = refl

guard-raised :
    {A : Type 0} (b : Bool) (x : Failure) (k : Unit {0} → Tx Database A) (d : Database)
    → b ≡ true
    → (refuse_if b x >>= k) d ≡ (raised x, d)
unfolding ◌>>=◌ refuse_if
guard-raised true x k d h = refl
guard-raised false x k d h = ground arith

projection_version-inv :
    (name entity : String) (d d' : Database) {v : ℕ}
    → projection_version name entity d ≡ (ok v, d')
    → (r : ProjectionRecord) × (find_record name entity d'.projections ≡ some r) × (v ≡ r.version)
unfolding projection_version lift
projection_version-inv name entity d d' {v} h =
    let (r, t, p, q) = bind-inv _ _ h in
    let (same, found) = query_projection-inv name entity d t p in
    let (end', v_of) = lift-inv (version_or_raise r) t q in
    let (x, is_x, made) = version_or_raise-inv r v v_of in
    (
      x,
      ap (λ (e : Database). find_record name entity e.projections) (end' ∙ same) ∙ sym found ∙ is_x,
      made,
    )

not-false : {b : Bool} → not b ≡ false → b ≡ true
not-false {b = true} h = refl
not-false {b = false} h = ground arith

module _ (reducer : Reducer) (fullmatch : String → String → Bool) (is_blank : String → Bool) where
  -- Where a worker has been registered, a later registration of it is refused and changes nothing.
  pub register_worker-once :
      (stamp later : Stamp) (worker_id : String) (role other : AgentRole) (d d' : Database) (v : ℕ)
      → register_worker reducer fullmatch is_blank stamp worker_id role d ≡ (ok v, d')
      → register_worker reducer fullmatch is_blank later worker_id other d'
        ≡ (raised (control_operation_error "WORKER_ALREADY_REGISTERED"), d')
  unfolding register_worker validate_worker_id is_registered
  register_worker-once stamp later worker_id role other d d' v h =
      let (valid, h1) = guard-inv _ _ _ h in
      let (known, t, p, h2) = bind-inv _ _ h1 in
      let (unknown, h3) = guard-inv _ _ _ h2 in
      let (x, u, p', h4) = bind-inv _ _ h3 in
      let (r, found, made) = projection_version-inv "worker_roster" worker_id u d' h4 in
      guard-ok _ _ _ d' valid
      ∙ bind-ok _ _ (query_projection-ok "worker_roster" worker_id d' refl)
      ∙ guard-raised _ _ _ d' (ap is_some found)

  module _ (byte_length : String → ℕ) (sha256_bytes : String → String)
      (sha256_json : JsonObject → String) where
    -- Where a task has been assigned, the controller was configured and the worker registered, and
    -- the version that comes back is that of the worker's assignment in the store.
    pub assign_task-requires :
        (stamp : Stamp) (worker_id task : String) (d d' : Database) (v : ℕ)
        → assign_task reducer fullmatch is_blank byte_length sha256_bytes sha256_json stamp
            worker_id task d
          ≡ (ok v, d')
        → (is_some (find_record "controller" controller_id d.projections) ≡ true)
          × (is_some (find_record "worker_roster" worker_id d.projections) ≡ true)
          × ((r : ProjectionRecord) × (find_record "worker_assignments" worker_id d'.projections
                ≡ some r)
              × (v ≡ r.version))
    unfolding assign_task validate_worker_id validate_task
    assign_task-requires stamp worker_id task d d' v h =
        let (valid, h1) = guard-inv _ _ _ h in
        let (fits, h2) = guard-inv _ _ _ h1 in
        let (controller, t1, p1, h3) = bind-inv _ _ h2 in
        let (same1, found1) = query_projection-inv "controller" controller_id d t1 p1 in
        let (configured, h4) = guard-inv _ _ _ h3 in
        let (worker, t2, p2, h5) = bind-inv _ _ h4 in
        let (same2, found2) = query_projection-inv "worker_roster" worker_id t1 t2 p2 in
        let (registered, h6) = guard-inv _ _ _ h5 in
        let (previous, t3, p3, h7) = bind-inv _ _ h6 in
        let (x, t4, p4, h8) = bind-inv _ _ h7 in
        let known =
          found2
          ∙ ap (λ (e : Database). find_record "worker_roster" worker_id e.projections) same1 in
        (
          subst (λ o. is_some o ≡ true) found1 (not-false configured),
          subst (λ o. is_some o ≡ true) known (not-false registered),
          projection_version-inv "worker_assignments" worker_id t4 d' h8,
        )
