-- ===== src/Gateway/Grants.antt =====
-- What a minted token lets its session do.
use mathlib.Core.Path.{subst}
use aizim.Prelude.{
  ℕ, ◌<◌, ◌≡◌, refl, sym, ap, ◌∙◌, Bool, true, false, Option, none, some, String, same_text,
  same_text?, leb, if◌then◌else◌, arith, eq_refl, Bool-cases, inl, inr,
}
use aizim.Outcome.{Outcome, Failure, ok, raised, raise_if, ◌>>◌}
use aizim.Json.{JsonObject}
use aizim.Events.{EventRecord, Stamp}
use aizim.Database.{CapabilityRecord, Database}
use aizim.Store.Minted.{persist_capability-found}
use aizim.Tokens.{capability_record}
use aizim.Store.{Reducer}
use aizim.Service.{persist}
use aizim.Control.{role_value}
use aizim.Gateway.{
  GatewayLimits, GatewayState, CapabilitySession, AuthorizedCall, authorized, take_global_request,
  take_run_request, decide, binding_denial, authorize_operation, authorize_record, authorize_token,
  decide_found, decide_token,
}
use aizim.Gateway.Tools.{GatewayTool, tool_value, role_capabilities, has_tool}
use aizim.Gateway.Names.{
  role_of-role_value, tool_of-tool_value, contains-tool_values, exceeds-allowed,
}
use aizim.Gateway.Minting.{
  CapabilityGrant, with_token, check_record, exceeds, has_duplicates, no_operations, check_grant,
  granted_record, persist_checked, mint,
}

raise_if-inv : (b : Bool) (e : Failure) (u : Unit {0}) → raise_if b e ≡ ok u → b ≡ false
raise_if-inv true e u h = ground arith
raise_if-inv false e u h = refl

last_check :
    (a b c d e f : Bool) (x1 x2 x3 x4 x5 x6 : Failure) (u : Unit {0})
    → (raise_if a x1
        >> raise_if b x2
        >> raise_if c x3
        >> raise_if d x4
        >> raise_if e x5
        >> raise_if f x6)
      ≡ ok u
    → f ≡ false
last_check false false false false false f x1 x2 x3 x4 x5 x6 u h = raise_if-inv f x6 u h
last_check true b c d e f x1 x2 x3 x4 x5 x6 u h = ground arith
last_check false true c d e f x1 x2 x3 x4 x5 x6 u h = ground arith
last_check false false true d e f x1 x2 x3 x4 x5 x6 u h = ground arith
last_check false false false true e f x1 x2 x3 x4 x5 x6 u h = ground arith
last_check false false false false true f x1 x2 x3 x4 x5 x6 u h = ground arith

-- What a check of a grant that succeeds says of its operations.
check_grant-allows :
    (grant : CapabilityGrant) (u : Unit {0})
    → check_grant grant ≡ ok u
    → exceeds (role_capabilities grant.role) grant.operations ≡ false
unfolding check_grant
check_grant-allows grant u h =
    last_check (same_text grant.run_id "") (same_text grant.worker_id "")
      (same_text? grant.lease_id (some "")) (no_operations grant.operations)
      (has_duplicates grant.operations) (exceeds (role_capabilities grant.role) grant.operations) _
      _ _ _ _ _ u h

-- The session of a minted token, and the call that its tool gets.
abbrev pub session_of : String → CapabilityGrant → CapabilitySession
session_of token grant = record {
  token = some token;
  run_id = grant.run_id;
  worker_id = grant.worker_id;
  role = role_value grant.role;
  lease_id = grant.lease_id;
}

abbrev pub granted_call : String → JsonObject → CapabilityGrant → GatewayTool → AuthorizedCall
granted_call request_id payload grant tool = record {
  request_id = request_id;
  run_id = grant.run_id;
  worker_id = grant.worker_id;
  role = grant.role;
  lease_id = grant.lease_id;
  operation = tool;
  payload = payload;
}

same_text?-refl : (a : Option String) → same_text? a a ≡ true
same_text?-refl none = refl
same_text?-refl (some a) = eq_refl a

binding_denial-granted :
    (k token : String) (grant : CapabilityGrant)
    → binding_denial (granted_record k grant) (session_of token grant) ≡ none
unfolding binding_denial granted_record
binding_denial-granted k token grant =
    let run = eq_refl grant.run_id in
    let worker = eq_refl grant.worker_id in
    let role = eq_refl (role_value grant.role) in
    let lease = same_text?-refl grant.lease_id in simp (run, worker, role, lease)

module _ (registered : GatewayTool → Bool) (request_id : String) (payload : JsonObject)
    (grant : CapabilityGrant) (tool : GatewayTool) where
  authorize_operation-granted :
      (k : String) (u : Unit {0})
      → check_grant grant ≡ ok u
      → has_tool tool grant.operations ≡ true
      → registered tool ≡ true
      → authorize_operation registered request_id payload
          (granted_record k grant)
          (some grant.role)
          (some tool)
        ≡ authorized (granted_call request_id payload grant tool)
  unfolding authorize_operation granted_record
  authorize_operation-granted k u checked held served =
      let advertised =
        exceeds-allowed (role_capabilities grant.role) tool grant.operations
          (check_grant-allows grant u checked) held in
      let stored = contains-tool_values tool grant.operations ∙ held in
      simp (advertised, stored, served)

  authorize_token-granted :
      (k token : String) (u : Unit {0}) (now : ℕ)
      → check_grant grant ≡ ok u
      → has_tool tool grant.operations ≡ true
      → registered tool ≡ true
      → now < grant.expires_at
      → authorize_token registered request_id payload now
          (granted_record k grant)
          (session_of token grant)
          (tool_value tool)
        ≡ authorized (granted_call request_id payload grant tool)
  unfolding authorize_token authorize_record granted_record
  authorize_token-granted k token u now checked held served fresh =
      let allowed = authorize_operation-granted k u checked held served in
      let bound = binding_denial-granted k token grant in
      let role = role_of-role_value grant.role in
      let operation = tool_of-tool_value tool in
      let unexpired : leb grant.expires_at now ≡ false = ground arith in
      simp (unexpired, bound, role, operation, allowed)

  decide_found-granted :
      (limits : GatewayLimits) (k token : String) (u : Unit {0}) (now : ℕ) (g : GatewayState)
      → check_grant grant ≡ ok u
      → has_tool tool grant.operations ≡ true
      → registered tool ≡ true
      → now < grant.expires_at
      → (take_run_request limits grant.run_id g).0 ≡ true
      → decide_found registered request_id payload limits now
          (session_of token grant)
          (tool_value tool)
          k
          (some (granted_record k grant))
          g
        ≡ (
          authorized (granted_call request_id payload grant tool),
          (take_run_request limits grant.run_id g).1,
        )
  unfolding decide_found granted_record
  decide_found-granted limits k token u now g checked held served fresh budget =
      let allowed = authorize_token-granted k token u now checked held served fresh in
      let hash = eq_refl k in simp (hash, budget, allowed)

else_branch : {A : Type 0} (b : Bool) (x y z : A) → b ≡ false → (if b then x else y) ≡ z → y ≡ z
else_branch true x y z e h = ground arith
else_branch false x y z e h = h

module _ (fullmatch : String → String → Bool) (sha256 : String → String)
    (canonical_timestamp : ℕ → String) (reducer : Reducer) where
  with_token-inv :
      (token token' : String) (r : Outcome EventRecord × Database) (d' : Database)
      → with_token token r ≡ (ok token', d')
      → (x : EventRecord) × (r ≡ (ok x, d')) × (token' ≡ token)
  with_token-inv token token' (ok x, d) d' h = (x, ground arith, ground arith)
  with_token-inv token token' (raised e, d) d' h = ground arith

  persist_checked-inv :
      (stamp : Stamp) (token token' : String) (r : CapabilityRecord) (c : Outcome (Unit {0}))
      (d d' : Database)
      → persist_checked fullmatch sha256 canonical_timestamp reducer stamp token r c d
        ≡ (ok token', d')
      → (capability_record r.token_hash d'.capability_tokens ≡ some r) × (token' ≡ token)
  unfolding persist_checked persist
  persist_checked-inv stamp token token' r (ok u) d d' h =
      let (x, stored, same) = with_token-inv token token' _ d' h in
      (persist_capability-found reducer r _ x d d' stored, same)
  persist_checked-inv stamp token token' r (raised e) d d' h = ground arith

  -- What a mint that succeeds has stored and returned.
  mint-inv :
      (stamp : Stamp) (raw token : String) (grant : CapabilityGrant) (d d' : Database)
      → mint fullmatch sha256 canonical_timestamp reducer stamp raw grant d ≡ (ok token, d')
      → (same_text token "" ≡ false)
        × (capability_record (sha256 token) d'.capability_tokens
            ≡ some (granted_record (sha256 token) grant))
  unfolding mint granted_record
  mint-inv stamp raw token grant d d' h = elim (Bool-cases (same_text raw "")) [
    | inl e ↦ ground arith
    | inr e ↦
        let (stored, same) =
          persist_checked-inv stamp raw token (granted_record (sha256 raw) grant)
            (check_record fullmatch (granted_record (sha256 raw) grant)) d d'
            (else_branch (same_text raw "") _ _ _ e h) in
        (
          subst (λ t. same_text t "" ≡ false) (sym same) e,
          subst
              (λ t.
                capability_record (sha256 t) d'.capability_tokens
                ≡ some (granted_record (sha256 t) grant))
              (sym same) stored,
        )
  ]

  module _ (registered : GatewayTool → Bool) (request_id : String) (payload : JsonObject) where
    -- A token was minted for a grant that passes its checks. A request of the session that carries it is
    -- let through for each registered tool of the grant, where the window and then the budget of the
    -- run have room, before the grant expires, and on every database in which the row of the token is
    -- still as the mint left it, so that nobody has revoked it; the tool gets the grant's run, worker,
    -- role and lease.
    pub decide-mint :
        (limits : GatewayLimits) (stamp : Stamp) (raw token : String) (grant : CapabilityGrant)
        (tool : GatewayTool) (monotonic : Option ℕ) (now : ℕ) (d d1 d2 : Database)
        (g g1 g2 : GatewayState)
        → check_grant grant ≡ ok tt
        → mint fullmatch sha256 canonical_timestamp reducer stamp raw grant d ≡ (ok token, d1)
        → capability_record (sha256 token) d2.capability_tokens
          ≡ capability_record (sha256 token) d1.capability_tokens
        → has_tool tool grant.operations ≡ true
        → registered tool ≡ true
        → now < grant.expires_at
        → take_global_request limits monotonic g ≡ (true, g1)
        → take_run_request limits grant.run_id g1 ≡ (true, g2)
        → decide registered request_id payload sha256 limits monotonic now
            (session_of token grant)
            (tool_value tool)
            d2
            g
          ≡ (authorized (granted_call request_id payload grant tool), g2)
    unfolding decide decide_token
    decide-mint limits stamp raw token grant tool monotonic now d d1 d2 g g1 g2 checked made kept
          held served fresh window budget =
        let (given, stored) = mint-inv stamp raw token grant d d1 made in
        let there = kept ∙ stored in
        let room = ap (λ (p : Bool × GatewayState). p.0) budget in
        let after = ap (λ (p : Bool × GatewayState). p.1) budget in
        let found =
          decide_found-granted registered request_id payload grant tool limits (sha256 token) token
            tt now g1 checked held served fresh room in
        simp (window, given, there, found, after)
