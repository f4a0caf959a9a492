-- ===== src/Gateway/Budgets.antt =====
-- What the requests that the gateway lets through take of its window and of the budget of their run.
use aizim.Prelude.{
  ℕ, ◌+◌, ◌-◌, ◌≤◌, ◌<◌, ◌≡◌, ◌⊎◌, inl, inr, refl, sym, ap, ◌∙◌, Bool, true, false, not, ◌||◌,
  Option, none, some, List, [], ◌∷◌, String, same_text, ltb, leb, if◌then◌else◌, arith, eq_iff,
  eq_refl, Bool-cases,
}
use aizim.Json.{JsonObject}
use aizim.Database.{CapabilityRecord, Database}
use aizim.Tokens.{capability_record}
use aizim.Gateway.{
  GatewayLimits, CapabilitySession, AuthorizedCall, RunCount, GatewayState, Decision, denied,
  authorized, open_window, take_in_window, take_global_request, run_count, set_run_count,
  take_run_request, authorize_token, decide_found, decide_token, decide,
}
use aizim.Gateway.Authority.{authorize_token-inv}
use aizim.Gateway.Tools.{GatewayTool}

pub run_count-set_run_count :
    (run k : String) (n : ℕ) (cs : List RunCount)
    → run_count run (set_run_count k n cs) ≡ (if same_text k run then n else run_count run cs)
unfolding run_count set_run_count
run_count-set_run_count run k n [] = refl
run_count-set_run_count run k n (c ∷ cs) = ground (
  arith,
  eq_iff c.run_id k,
  eq_iff c.run_id run,
  eq_iff k run,
  run_count-set_run_count run k n cs,
)

-- How a request that is taken at a time counts in the window: in the one that is open, or as the first
-- of a new one, where the open one is over or the clock stands before its start.
pub data IsCounted (limits : GatewayLimits) (t : ℕ) (g g' : GatewayState) : Type 0 where
  open_still :
      g.window_started ≤ t
      → t < g.window_started + limits.window
      → g'.window_started ≡ g.window_started
      → g'.window_count ≡ g.window_count + 1
      → g'.window_count ≤ limits.request_limit
      → IsCounted limits t g g'
  opened :
      (t < g.window_started) ⊎ (g.window_started + limits.window ≤ t)
      → g'.window_started ≡ t
      → g'.window_count ≡ 1
      → g'.window_count ≤ limits.request_limit
      → IsCounted limits t g g'

module _ (limits : GatewayLimits) where
  taken_in_window :
      (g g' : GatewayState)
      → take_in_window limits g ≡ (true, g')
      → (g' ≡ record g { window_count = g.window_count + 1 })
        × (g.window_count + 1 ≤ limits.request_limit)
  unfolding take_in_window
  taken_in_window g g' h = elim (Bool-cases (leb limits.request_limit g.window_count)) [
    | inl e ↦ ground arith
    | inr e ↦ (ground arith, ground arith)
  ]

  window-IsCounted :
      (t : ℕ) (g g' : GatewayState)
      → take_in_window limits (open_window limits t g) ≡ (true, g')
      → IsCounted limits t g g' × (g'.run_counts ≡ g.run_counts)
  unfolding open_window
  window-IsCounted t g g' h =
      go (ltb t g.window_started || leb limits.window (t - g.window_started)) refl h
    where
      go :
          (b : Bool)
          → (ltb t g.window_started || leb limits.window (t - g.window_started)) ≡ b
          → take_in_window limits
              (if b then record g { window_started = t; window_count = 0 } else g)
            ≡ (true, g')
          → IsCounted limits t g g' × (g'.run_counts ≡ g.run_counts)
      go true e p =
          let (made, room) =
            taken_in_window (record g { window_started = t; window_count = 0 }) g' p in
          let started = ap (λ (s : GatewayState). s.window_started) made in
          let count = ap (λ (s : GatewayState). s.window_count) made in
          let over : (t < g.window_started) ⊎ (g.window_started + limits.window ≤ t) =
            ground arith in
          (
            IsCounted.opened over started count (ground arith),
            ap (λ (s : GatewayState). s.run_counts) made,
          )
      go false e p =
          let (made, room) = taken_in_window g g' p in
          let started = ap (λ (s : GatewayState). s.window_started) made in
          let count = ap (λ (s : GatewayState). s.window_count) made in
          (
            IsCounted.open_still (ground arith) (ground arith) started count (ground arith),
            ap (λ (s : GatewayState). s.run_counts) made,
          )

  taken_of_run :
      (run : String) (g g' : GatewayState)
      → take_run_request limits run g ≡ (true, g')
      → (run_count run g'.run_counts ≡ run_count run g.run_counts + 1)
        × (run_count run g'.run_counts ≤ limits.run_budget)
        × (g'.window_started ≡ g.window_started)
        × (g'.window_count ≡ g.window_count)
  unfolding take_run_request
  taken_of_run run g g' h = elim (Bool-cases (leb limits.run_budget (run_count run g.run_counts))) [
    | inl e ↦ ground arith
    | inr e ↦
        let made : record g {
          run_counts = set_run_count run (run_count run g.run_counts + 1) g.run_counts;
        }
            ≡ g' =
          ground arith in
        let set =
          run_count-set_run_count run run (run_count run g.run_counts + 1) g.run_counts
          ∙ ap (λ b. if b then run_count run g.run_counts + 1 else run_count run g.run_counts)
              (eq_refl run) in
        let counted = ap (λ (x : GatewayState). run_count run x.run_counts) (sym made) ∙ set in
        (
          counted,
          ground arith,
          ap (λ (x : GatewayState). x.window_started) (sym made),
          ap (λ (x : GatewayState). x.window_count) (sym made),
        )
  ]

  global_taken :
      (monotonic : Option ℕ) (g g' : GatewayState)
      → take_global_request limits monotonic g ≡ (true, g')
      → (t : ℕ) × (monotonic ≡ some t)
        × (take_in_window limits (open_window limits t g) ≡ (true, g'))
  unfolding take_global_request
  global_taken none g g' h = ground arith
  global_taken (some t) g g' h = (t, refl, h)

recounted :
    (limits : GatewayLimits) (t : ℕ) (g g1 g' : GatewayState)
    → IsCounted limits t g g1
    → g'.window_started ≡ g1.window_started
    → g'.window_count ≡ g1.window_count
    → IsCounted limits t g g'
recounted limits t g g1 g' (IsCounted.open_still a b p q r) s c =
    IsCounted.open_still a b (s ∙ p) (c ∙ q) (ground arith)
recounted limits t g g1 g' (IsCounted.opened a p q r) s c =
    IsCounted.opened a (s ∙ p) (c ∙ q) (ground arith)

-- The gates of a decision, passed, with the state that they leave.
passed_run :
    (a taken : Bool) (x y : String) (run : Option String) (rest : Decision) (g g1 g' : GatewayState)
    (c : AuthorizedCall)
    → ◌≡◌ {A = Decision × GatewayState}
        (if not a then (denied x none, g) else if taken then (rest, g1) else (denied y run, g1))
        (authorized c, g')
    → (taken ≡ true) × (rest ≡ authorized c) × (g1 ≡ g')
passed_run true true x y run rest g g1 g' c h =
    (refl, ap (λ (p : Decision × GatewayState). p.0) h, ap (λ (p : Decision × GatewayState). p.1) h)
passed_run true false x y run rest g g1 g' c h = ground arith
passed_run false taken x y run rest g g1 g' c h = ground arith

passed_when :
    (b : Bool) (x : Decision × GatewayState) (z : String) (g g' : GatewayState) (c : AuthorizedCall)
    → (if b then x else (denied z none, g)) ≡ (authorized c, g')
    → (b ≡ true) × (x ≡ (authorized c, g'))
passed_when true x z g g' c h = (refl, h)
passed_when false x z g g' c h = ground arith

passed_unless :
    (b : Bool) (x : Decision × GatewayState) (z : String) (g g' : GatewayState) (c : AuthorizedCall)
    → (if b then (denied z none, g) else x) ≡ (authorized c, g')
    → x ≡ (authorized c, g')
passed_unless true x z g g' c h = ground arith
passed_unless false x z g g' c h = h

pair-eta : {A B : Type 0} (p : A × B) {a : A} {b : B} → p.0 ≡ a → p.1 ≡ b → p ≡ (a, b)
pair-eta (x, y) e f = ground arith

module _ (limits : GatewayLimits) (registered : GatewayTool → Bool) (request_id : String)
    (payload : JsonObject) where
  decide_found-taken :
      (now : ℕ) (session : CapabilitySession) (operation presented : String)
      (found : Option CapabilityRecord) (g g' : GatewayState) (c : AuthorizedCall)
      → decide_found registered request_id payload limits now session operation presented found g
        ≡ (authorized c, g')
      → take_run_request limits c.run_id g ≡ (true, g')
  unfolding decide_found
  decide_found-taken now session operation presented none g g' c h = ground arith
  decide_found-taken now session operation presented (some r) g g' c h =
      let (taken, allowed, left) =
        passed_run (same_text r.token_hash presented) (take_run_request limits r.run_id g).0 _ _ _
          (authorize_token registered request_id payload now r session operation) g _ g' c h in
      let same =
        (authorize_token-inv registered request_id payload now r session operation c
          allowed).identity.0 in
      ap (λ run. take_run_request limits run g) same
      ∙ pair-eta (take_run_request limits r.run_id g) taken left

  decide_token-taken :
      (sha256 : String → String) (now : ℕ) (session : CapabilitySession) (operation : String)
      (presented : Option String) (d : Database) (g g' : GatewayState) (c : AuthorizedCall)
      → decide_token registered request_id payload sha256 limits now session operation presented d g
        ≡ (authorized c, g')
      → take_run_request limits c.run_id g ≡ (true, g')
  unfolding decide_token
  decide_token-taken sha256 now session operation none d g g' c h = ground arith
  decide_token-taken sha256 now session operation (some token) d g g' c h =
      decide_found-taken now session operation (sha256 token)
        (capability_record (sha256 token) d.capability_tokens) g g' c
        (passed_unless (same_text token "") _ _ g g' c h)

  -- A request that is let through has been counted once in the window at its time, within the limit
  -- of requests, and once for the run of its call, within the budget of a run.
  pub decide-counts :
      (sha256 : String → String) (monotonic : Option ℕ) (now : ℕ) (session : CapabilitySession)
      (operation : String) (d : Database) (g g' : GatewayState) (c : AuthorizedCall)
      → decide registered request_id payload sha256 limits monotonic now session operation d g
        ≡ (authorized c, g')
      → (t : ℕ) × (monotonic ≡ some t)
        × IsCounted limits t g g'
        × (run_count c.run_id g'.run_counts ≡ run_count c.run_id g.run_counts + 1)
        × (run_count c.run_id g'.run_counts ≤ limits.run_budget)
  unfolding decide
  decide-counts sha256 monotonic now session operation d g g' c h =
      let first = take_global_request limits monotonic g in
      let (taken, decided) =
        passed_when first.0
          (decide_token registered request_id payload sha256 limits now session operation
            session.token d first.1)
          _ first.1 g' c h in
      let (t, time, window) = global_taken limits monotonic g first.1 (pair-eta first taken refl) in
      let (counted, runs) = window-IsCounted limits t g first.1 window in
      let (more, within, started, count) =
        taken_of_run limits c.run_id first.1 g'
          (decide_token-taken sha256 now session operation session.token d first.1 g' c decided) in
      (
        t,
        time,
        recounted limits t g first.1 g' counted started count,
        more ∙ ap (λ cs. run_count c.run_id cs + 1) runs,
        within,
      )
