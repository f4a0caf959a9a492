-- ===== src/Gateway/Authority.antt =====
-- What a call that the gateway lets through has shown, and what the gateway counts.
use aizim.Prelude.{
  ℕ, ◌<◌, ◌≡◌, refl, sym, ap, ◌∙◌, Bool, true, false, not, Option, none, some, String, same_text,
  same_text?, same_text?-eq, eq_iff, is_some, leb, if◌then◌else◌, arith, Bool-cases, inl, inr,
}
use mathlib.Core.Path.{subst}
use aizim.Json.{JsonObject}
use aizim.Projections.{contains}
use aizim.Database.{CapabilityRecord, Database}
use aizim.Tokens.{capability_record}
use aizim.Control.{AgentRole}
use aizim.Gateway.{
  GatewayLimits, CapabilitySession, AuthorizedCall, GatewayState, Decision, denied, authorized,
  take_global_request, take_run_request, binding_denial, authorize_operation, authorize_record,
  authorize_token, decide_found, decide_token, decide,
}
use aizim.Gateway.Tools.{GatewayTool, tool_value, role_capabilities, tool_of, role_of, has_tool}

-- What the stored record of a token and the session must show for a call of a tool.
pub record IsEntitled (registered : GatewayTool → Bool) (now : ℕ) (session : CapabilitySession)
    (operation : String) (r : CapabilityRecord) (c : AuthorizedCall) : Type 0 where
  pub unexpired : now < r.expires_at
  pub unrevoked : is_some r.revoked_at ≡ false
  pub same_run : session.run_id ≡ r.run_id
  pub same_worker : session.worker_id ≡ r.worker_id
  pub same_role : session.role ≡ r.role
  pub same_lease : session.lease_id ≡ r.lease_id
  pub role : role_of r.role ≡ some c.role
  pub tool : tool_of operation ≡ some c.operation
  pub advertised : has_tool c.operation (role_capabilities c.role) ≡ true
  pub minted : contains (tool_value c.operation) r.operations ≡ true
  pub served : registered c.operation ≡ true
  pub identity : (c.run_id ≡ r.run_id) × (c.worker_id ≡ r.worker_id) × (c.lease_id ≡ r.lease_id)

-- The four tests of a binding, passed.
all_match :
    (a b c e : Bool) (x y z w : String)
    → (if not a
        then some x
        else if not b
        then some y
        else if not c
        then some z
        else if not e
        then some w
        else none)
      ≡ none
    → (a ≡ true) × (b ≡ true) × (c ≡ true) × (e ≡ true)
all_match true true true true x y z w h = (refl, refl, refl, refl)
all_match true true true false x y z w h = ground arith
all_match true true false e x y z w h = ground arith
all_match true false c e x y z w h = ground arith
all_match false b c e x y z w h = ground arith

binding_denial-none :
    (r : CapabilityRecord) (session : CapabilitySession)
    → binding_denial r session ≡ none
    → (session.run_id ≡ r.run_id)
      × (session.worker_id ≡ r.worker_id)
      × (session.role ≡ r.role)
      × (session.lease_id ≡ r.lease_id)
unfolding binding_denial
binding_denial-none r session h =
    let (run, worker, role, lease) =
      all_match (same_text session.run_id r.run_id) (same_text session.worker_id r.worker_id)
        (same_text session.role r.role) (same_text? session.lease_id r.lease_id) _ _ _ _ h in
    (
      (eq_iff session.run_id r.run_id).0 run,
      (eq_iff session.worker_id r.worker_id).0 worker,
      (eq_iff session.role r.role).0 role,
      same_text?-eq session.lease_id r.lease_id lease,
    )

gates :
    (a b e : Bool) (x y z : String) (run : Option String) (c d : AuthorizedCall)
    → (if not a
        then denied x run
        else if not b
        then denied y run
        else if not e
        then denied z run
        else authorized c)
      ≡ authorized d
    → (a ≡ true) × (b ≡ true) × (e ≡ true) × (c ≡ d)
gates true true true x y z run c d h = (refl, refl, refl, ground arith)
gates true true false x y z run c d h = ground arith
gates true false e x y z run c d h = ground arith
gates false b e x y z run c d h = ground arith

module _ (registered : GatewayTool → Bool) (request_id : String) (payload : JsonObject) where
  authorize_operation-inv :
      (r : CapabilityRecord) (role : Option AgentRole) (tool : Option GatewayTool)
      (c : AuthorizedCall)
      → authorize_operation registered request_id payload r role tool ≡ authorized c
      → (role ≡ some c.role)
        × (tool ≡ some c.operation)
        × (has_tool c.operation (role_capabilities c.role) ≡ true)
        × (contains (tool_value c.operation) r.operations ≡ true)
        × (registered c.operation ≡ true)
        × (c.run_id ≡ r.run_id)
        × (c.worker_id ≡ r.worker_id)
        × (c.lease_id ≡ r.lease_id)
  unfolding authorize_operation
  authorize_operation-inv r none tool c h = ground arith
  authorize_operation-inv r (some role) none c h = ground arith
  authorize_operation-inv r (some role) (some tool) c h =
      let (a, b, e, same) =
        gates (has_tool tool (role_capabilities role)) (contains (tool_value tool) r.operations)
          (registered tool) _ _ _ _ _ c h in
      let tools = ap (λ (x : AuthorizedCall). x.operation) same in
      let roles = ap (λ (x : AuthorizedCall). x.role) same in
      (
        ap some roles,
        ap some tools,
        subst (λ t. has_tool t (role_capabilities c.role) ≡ true) tools
            (subst (λ x. has_tool tool (role_capabilities x) ≡ true) roles a),
        subst (λ t. contains (tool_value t) r.operations ≡ true) tools b,
        subst (λ t. registered t ≡ true) tools e,
        sym (ap (λ (x : AuthorizedCall). x.run_id) same),
        sym (ap (λ (x : AuthorizedCall). x.worker_id) same),
        sym (ap (λ (x : AuthorizedCall). x.lease_id) same),
      )

  authorize_record-inv :
      (now : ℕ) (r : CapabilityRecord) (session : CapabilitySession) (operation : String)
      (reason : Option String) (c : AuthorizedCall)
      → authorize_record registered request_id payload now r session operation reason ≡ authorized c
      → (reason ≡ none)
        × (authorize_operation registered request_id payload r (role_of r.role) (tool_of operation)
            ≡ authorized c)
  unfolding authorize_record authorize_operation
  authorize_record-inv now r session operation none c h = (refl, h)
  authorize_record-inv now r session operation (some x) c h = ground arith

  token_gates :
      (a b : Bool) (x y : String) (run : Option String) (rest : Decision) (c : AuthorizedCall)
      → (if a then denied x run else if b then denied y run else rest) ≡ authorized c
      → (a ≡ false) × (b ≡ false) × (rest ≡ authorized c)
  token_gates true b x y run rest c h = ground arith
  token_gates false true x y run rest c h = ground arith
  token_gates false false x y run rest c h = (refl, refl, h)

  pub authorize_token-inv :
      (now : ℕ) (r : CapabilityRecord) (session : CapabilitySession) (operation : String)
      (c : AuthorizedCall)
      → authorize_token registered request_id payload now r session operation ≡ authorized c
      → IsEntitled registered now session operation r c
  unfolding authorize_token
  authorize_token-inv now r session operation c h =
      let (fresh, held, h1) =
        token_gates (leb r.expires_at now) (is_some r.revoked_at) _ _ _
          (authorize_record registered request_id payload now r session operation
            (binding_denial r session))
          c h in
      let (bound, h2) = authorize_record-inv now r session operation _ c h1 in
      let (same_run, same_worker, same_role, same_lease) = binding_denial-none r session bound in
      let (role, tool, advertised, minted, served, run, worker, lease) =
        authorize_operation-inv r (role_of r.role) (tool_of operation) c h2 in
      record {
        unexpired = ground arith;
        unrevoked = held;
        same_run = same_run;
        same_worker = same_worker;
        same_role = same_role;
        same_lease = same_lease;
        role = role;
        tool = tool;
        advertised = advertised;
        minted = minted;
        served = served;
        identity = (run, worker, lease);
      }

  found_gates :
      (a taken : Bool) (x y : String) (run : Option String) (rest : Decision)
      (g g1 g' : GatewayState) (c : AuthorizedCall)
      → ◌≡◌ {A = Decision × GatewayState}
          (if not a then (denied x none, g) else if taken then (rest, g1) else (denied y run, g1))
          (authorized c, g')
      → rest ≡ authorized c
  found_gates true true x y run rest g g1 g' c h = ap (λ (p : Decision × GatewayState). p.0) h
  found_gates true false x y run rest g g1 g' c h = ground arith
  found_gates false taken x y run rest g g1 g' c h = ground arith

  decide_found-inv :
      (limits : GatewayLimits) (now : ℕ) (session : CapabilitySession)
      (operation presented : String) (found : Option CapabilityRecord) (g g' : GatewayState)
      (c : AuthorizedCall)
      → decide_found registered request_id payload limits now session operation presented found g
        ≡ (authorized c, g')
      → (r : CapabilityRecord) × (found ≡ some r) × IsEntitled registered now session operation r c
  unfolding decide_found
  decide_found-inv limits now session operation presented none g g' c h = ground arith
  decide_found-inv limits now session operation presented (some r) g g' c h = (
    r,
    refl,
    authorize_token-inv now r session operation c (
        found_gates (same_text r.token_hash presented) (take_run_request limits r.run_id g).0 _ _ _
          (authorize_token registered request_id payload now r session operation) g _ g' c h),
  )

  -- A test that a call must pass before the rest is decided.
  past_test :
      (b : Bool) (x y : Decision × GatewayState) (z : String) (g : GatewayState)
      (c : AuthorizedCall) (g' : GatewayState)
      → y ≡ (denied z none, g)
      → (if b then x else y) ≡ (authorized c, g')
      → x ≡ (authorized c, g')
  past_test true x y z g c g' e h = h
  past_test false x y z g c g' e h = ground arith

  module _ (sha256 : String → String) where
    decide_token-inv :
        (limits : GatewayLimits) (now : ℕ) (session : CapabilitySession) (operation : String)
        (presented : Option String) (d : Database) (g g' : GatewayState) (c : AuthorizedCall)
        → decide_token registered request_id payload sha256 limits now session operation presented d
            g
          ≡ (authorized c, g')
        → (token : String) × (r : CapabilityRecord) × (presented ≡ some token)
          × (capability_record (sha256 token) d.capability_tokens ≡ some r)
          × IsEntitled registered now session operation r c
    unfolding decide_token
    decide_token-inv limits now session operation none d g g' c h = ground arith
    decide_token-inv limits now session operation (some token) d g g' c h =
        elim (Bool-cases (same_text token "")) [
          | inl e ↦ ground arith
          | inr e ↦
              let (r, found, entitled) =
                decide_found-inv limits now session operation (sha256 token)
                  (capability_record (sha256 token) d.capability_tokens) g g' c
                  (sym (
                      ap
                        (λ b.
                          if b
                          then (denied "MISSING_TOKEN" none, g)
                          else decide_found registered request_id payload limits now session
                              operation (sha256 token)
                              (capability_record (sha256 token) d.capability_tokens) g)
                        e)
                    ∙ h) in
              (token, r, refl, found, entitled)
        ]

    -- A call that the gateway lets through presents a token whose hash is stored, in a record that has
    -- neither expired nor been revoked, names the session's run, worker, role and lease, and was minted
    -- for the tool; the record's role has the tool, and the tool is registered.
    pub decide-IsEntitled :
        (limits : GatewayLimits) (monotonic : Option ℕ) (now : ℕ) (session : CapabilitySession)
        (operation : String) (d : Database) (g g' : GatewayState) (c : AuthorizedCall)
        → decide registered request_id payload sha256 limits monotonic now session operation d g
          ≡ (authorized c, g')
        → (token : String) × (r : CapabilityRecord) × (session.token ≡ some token)
          × (capability_record (sha256 token) d.capability_tokens ≡ some r)
          × IsEntitled registered now session operation r c
    unfolding decide
    decide-IsEntitled limits monotonic now session operation d g g' c h =
        decide_token-inv limits now session operation session.token d
          (take_global_request limits monotonic g).1 g' c
          (past_test (take_global_request limits monotonic g).0 _ _ "REQUEST_RATE_EXCEEDED"
            (take_global_request limits monotonic g).1 c g' refl h)
