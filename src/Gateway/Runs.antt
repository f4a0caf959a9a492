-- ===== src/Gateway/Runs.antt =====
-- The calls of one run over many requests, which `CapabilityGateway.call` takes one after another.
use aizim.Prelude.{
  ℕ, ◌+◌, ◌≤◌, ◌≡◌, refl, ap, Bool, true, false, not, Option, none, some, List, [], ◌∷◌, String,
  same_text, if◌then◌else◌, arith, eq_iff, Bool-cases, inl, inr,
}
use mathlib.Core.Path.{subst}
use aizim.Json.{JsonObject}
use aizim.Database.{CapabilityRecord, Database}
use aizim.Tokens.{capability_record}
use aizim.Gateway.{
  GatewayLimits, CapabilitySession, GatewayState, Decision, denied, authorized, open_window,
  take_in_window, take_global_request, run_count, take_run_request, decide_found, decide_token,
  decide,
}
use aizim.Gateway.Budgets.{run_count-set_run_count, decide-counts}
use aizim.Gateway.Tools.{GatewayTool}

-- A request, with the clocks and the database at its time.
pub record Request : Type 0 where
  pub request_id : String
  pub payload : JsonObject
  pub monotonic : Option ℕ
  pub now : ℕ
  pub session : CapabilitySession
  pub operation : String
  pub database : Database

-- The calls of a run among one decision.
unfoldable pub lets : String → Decision → ℕ
lets run (authorized c) = if same_text c.run_id run then 1 else 0
lets run (denied reason of) = 0

-- The count of a run is not below a number, and within the budget.
record IsWithin (limits : GatewayLimits) (run : String) (low : ℕ) (g : GatewayState) : Type 0 where
  pub kept : low ≤ run_count run g.run_counts
  pub budget : run_count run g.run_counts ≤ limits.run_budget

module _ (limits : GatewayLimits) (run : String) (low : ℕ) where
  take_global_request-IsWithin :
      (monotonic : Option ℕ) (g : GatewayState)
      → IsWithin limits run low g
      → IsWithin limits run low (take_global_request limits monotonic g).1
  unfolding take_global_request open_window take_in_window
  take_global_request-IsWithin none g w = w
  take_global_request-IsWithin (some now) g w = record {
    kept = ground (arith, w.kept);
    budget = ground (arith, w.budget);
  }

  take_run_request-IsWithin :
      (k : String) (g : GatewayState)
      → IsWithin limits run low g
      → IsWithin limits run low (take_run_request limits k g).1
  unfolding take_run_request
  take_run_request-IsWithin k g w =
      let set = run_count-set_run_count run k (run_count k g.run_counts + 1) g.run_counts in
      record {
        kept = ground (arith, w.kept, w.budget, eq_iff k run, set);
        budget = ground (arith, w.kept, w.budget, eq_iff k run, set);
      }

  -- The state after a choice between two decisions.
  chosen_state :
      (b : Bool) (x y : Decision × GatewayState)
      → IsWithin limits run low x.1
      → IsWithin limits run low y.1
      → IsWithin limits run low (if b then x else y).1
  chosen_state true x y p q = p
  chosen_state false x y p q = q

  module _ (registered : GatewayTool → Bool) (request_id : String) (payload : JsonObject)
      (sha256 : String → String) where
    decide_found-IsWithin :
        (now : ℕ) (session : CapabilitySession) (operation presented : String)
        (found : Option CapabilityRecord) (g : GatewayState)
        → IsWithin limits run low g
        → IsWithin limits run low
            (decide_found registered request_id payload limits now session operation presented found
              g).1
    unfolding decide_found
    decide_found-IsWithin now session operation presented none g w = w
    decide_found-IsWithin now session operation presented (some r) g w =
        let taken = take_run_request-IsWithin r.run_id g w in
        chosen_state (not (same_text r.token_hash presented)) _ _ w
          (chosen_state (take_run_request limits r.run_id g).0 _ _ taken taken)

    decide_token-IsWithin :
        (now : ℕ) (session : CapabilitySession) (operation : String) (presented : Option String)
        (d : Database) (g : GatewayState)
        → IsWithin limits run low g
        → IsWithin limits run low
            (decide_token registered request_id payload sha256 limits now session operation
              presented d g).1
    unfolding decide_token
    decide_token-IsWithin now session operation none d g w = w
    decide_token-IsWithin now session operation (some token) d g w =
        chosen_state (same_text token "") _ _ w (
          decide_found-IsWithin now session operation (sha256 token)
            (capability_record (sha256 token) d.capability_tokens) g w)

    decide-IsWithin :
        (monotonic : Option ℕ) (now : ℕ) (session : CapabilitySession) (operation : String)
        (d : Database) (g : GatewayState)
        → IsWithin limits run low g
        → IsWithin limits run low
            (decide registered request_id payload sha256 limits monotonic now session operation d
              g).1
    unfolding decide
    decide-IsWithin monotonic now session operation d g w =
        let global = take_global_request-IsWithin monotonic g w in
        chosen_state (take_global_request limits monotonic g).0 _ _
          (decide_token-IsWithin now session operation session.token d
            (take_global_request limits monotonic g).1 global)
          global

module _ (limits : GatewayLimits) (registered : GatewayTool → Bool) (sha256 : String → String) where
  abbrev pub decision : Request → GatewayState → Decision × GatewayState
  decision r g =
      decide registered r.request_id r.payload sha256 limits r.monotonic r.now r.session r.operation
        r.database g

  -- The number of calls of a run that get through, over requests that the gateway takes in order.
  unfoldable pub let_through : String → List Request → GatewayState → ℕ
  unfolding lets
  let_through run [] g = 0
  let_through run (r ∷ rs) g = lets run (decision r g).0 + let_through run rs (decision r g).1

  -- What one decision lets through is in the count of the run.
  decision-lets :
      (run : String) (r : Request) (g : GatewayState)
      → run_count run g.run_counts ≤ limits.run_budget
      → (lets run (decision r g).0 + run_count run g.run_counts
          ≤ run_count run (decision r g).1.run_counts)
        × (run_count run (decision r g).1.run_counts ≤ limits.run_budget)
  unfolding lets
  decision-lets run r g small = go (decision r g) refl
    where
      start : IsWithin limits run (run_count run g.run_counts) g
      start = record { kept = omega arith; budget = small }

      after : IsWithin limits run (run_count run g.run_counts) (decision r g).1
      after =
          decide-IsWithin limits run (run_count run g.run_counts) registered r.request_id r.payload
            sha256 r.monotonic r.now r.session r.operation r.database g start

      go :
          (x : Decision × GatewayState)
          → decision r g ≡ x
          → (lets run x.0 + run_count run g.run_counts ≤ run_count run (decision r g).1.run_counts)
            × (run_count run (decision r g).1.run_counts ≤ limits.run_budget)
      go (denied reason of, g') e = (omega (arith, after.kept), after.budget)
      go (authorized c, g') e = elim (Bool-cases (same_text c.run_id run)) [
        | inl same ↦
            let (t, time, counted, more, within) =
              decide-counts limits registered r.request_id r.payload sha256 r.monotonic r.now
                r.session r.operation r.database g g' c e in
            let left = ap (λ (x : Decision × GatewayState). run_count run x.1.run_counts) e in
            let here =
              subst (λ k. run_count k g'.run_counts ≡ run_count k g.run_counts + 1)
                ((eq_iff c.run_id run).0 same) more in
            let one = ap {B = ℕ} (λ b. if b then 1 else 0) same in
            (omega (arith, one, left, here), after.budget)
        | inr other ↦
            let none_here = ap {B = ℕ} (λ b. if b then 1 else 0) other in
            (omega (arith, none_here, after.kept), after.budget)
      ]

  -- However many requests come, with whatever tokens, clocks and databases, the calls of a run that
  -- the gateway lets through and those that it has counted before are together within the budget of
  -- a run, where those counted before are.
  pub let_through-within :
      (run : String) (rs : List Request) (g : GatewayState)
      → run_count run g.run_counts ≤ limits.run_budget
      → let_through run rs g + run_count run g.run_counts ≤ limits.run_budget
  unfolding let_through
  let_through-within run [] g small = omega (arith, small)
  let_through-within run (r ∷ rs) g small =
      let (counted, within) = decision-lets run r g small in
      let rest = let_through-within run rs (decision r g).1 within in omega (arith, counted, rest)
