-- ===== src/Gateway/Tests.antt =====
-- A call that is let through, and the theorems at it.
use aizim.Prelude.{ℕ, ◌+◌, ◌≤◌, ◌≡◌, refl, Bool, true, Option, none, some, [], ◌∷◌, String, arith}
use aizim.Json.{end}
use aizim.Gateway.Minting.{
  CapabilityGrant, mint, persist_checked, check_record, repeats, granted_record, tool_values,
  check_grant, has_duplicates, exceeds,
}
use aizim.Gateway.Grants.{session_of, granted_call, decide-mint}
use aizim.Gateway.{authorized}
use aizim.Outcome.{ok}
use aizim.Events.{Stamp, stamped}
use aizim.Service.{persist, texts}
use aizim.Store.{
  Reducer, persist_capability, apply_event_mutation, insert_event, save_projections, write_changes,
  has_event,
}
use aizim.Tokens.{insert_capability}
use aizim.Tx.{pure, lift, gets, transaction, rename_failure, ◌>>=◌}
use aizim.Database.{CapabilityRecord, Database, initial}
use aizim.Control.{formalizer}
use aizim.Gateway.{GatewayLimits, CapabilitySession, AuthorizedCall, GatewayState}
use aizim.Gateway.Tools.{GatewayTool, lean_goal}
use aizim.Gateway.Authority.{IsEntitled, decide-IsEntitled}
use aizim.Gateway.Budgets.{IsCounted, decide-counts}
use aizim.Gateway.Runs.{Request, lets, let_through, let_through-within}
use aizim.Gateway.{
  open_window, take_in_window, take_global_request, run_count, set_run_count, take_run_request,
  binding_denial, authorize_operation, authorize_record, authorize_token, decide_found,
  decide_token, decide,
}
use aizim.Gateway.Tools.{tool_value, role_capabilities, tool_of, role_of, has_tool}
use aizim.Tokens.{capability_record}
use aizim.Projections.{contains}

abbrev limits : GatewayLimits
limits = record { request_limit = 10; window = 60; run_budget = 5 }

abbrev session : CapabilitySession
session = record {
  token = some "secret";
  run_id = "run";
  worker_id = "w";
  role = "formalizer";
  lease_id = none;
}

abbrev hash_of : String → String
hash_of text = "hash"

abbrev stored : CapabilityRecord
stored = record {
  token_hash = "hash";
  run_id = "run";
  worker_id = "w";
  role = "formalizer";
  lease_id = none;
  operations = "lean.goal" ∷ [];
  expires_at = 100;
  revoked_at = none;
}

abbrev database : Database
database = record initial { capability_tokens = stored ∷ [] }

abbrev before : GatewayState
before = record { window_started = 0; window_count = 3; run_counts = [] }

abbrev after : GatewayState
after = record {
  window_started = 0;
  window_count = 4;
  run_counts = record { run_id = "run"; count = 1 } ∷ [];
}

abbrev every_tool : GatewayTool → Bool
every_tool tool = true

abbrev grant : CapabilityGrant
grant = record {
  run_id = "run";
  worker_id = "w";
  role = formalizer;
  lease_id = none;
  operations = lean_goal ∷ [];
  expires_at = 100;
}

abbrev every_text : String → String → Bool
every_text pattern text = true

abbrev one_time : ℕ → String
one_time t = "time"

abbrev unchanging : Reducer
unchanging snapshots event = ok []

abbrev mint_stamp : Stamp
mint_stamp = record { event_id = "01"; now = 20 }

abbrev minted_database : Database
minted_database = (mint every_text hash_of one_time unchanging mint_stamp "secret" grant initial).1

grant-checked : check_grant grant ≡ ok tt
unfolding check_grant has_duplicates exceeds role_capabilities has_tool tool_value
grant-checked = refl

grant-minted :
    mint every_text hash_of one_time unchanging mint_stamp "secret" grant initial
    ≡ (ok "secret", minted_database)
unfolding mint persist_checked check_record repeats granted_record tool_values tool_value contains
    persist texts stamped persist_capability apply_event_mutation insert_event save_projections
    write_changes has_event insert_capability capability_record pure lift gets transaction
    rename_failure ◌>>=◌
grant-minted = refl

grant-holds : has_tool lean_goal grant.operations ≡ true
unfolding has_tool tool_value
grant-holds = refl

abbrev counted : GatewayState
counted = record { window_started = 0; window_count = 4; run_counts = [] }

window-room : take_global_request limits (some 10) before ≡ (true, counted)
unfolding take_global_request open_window take_in_window
window-room = refl

budget-room : take_run_request limits grant.run_id counted ≡ (true, after)
unfolding take_run_request run_count set_run_count
budget-room = refl

abbrev goal_call : AuthorizedCall
goal_call = record {
  request_id = "r";
  run_id = "run";
  worker_id = "w";
  role = formalizer;
  lease_id = none;
  operation = lean_goal;
  payload = end;
}

decide-IsEntitled_example :
    (token : String) × (r : CapabilityRecord) × (◌≡◌ {A = Option String}
      (some "secret")
      (some token))
    × (capability_record (hash_of token) database.capability_tokens ≡ some r)
    × IsEntitled every_tool 50 session "lean.goal" r goal_call
unfolding open_window take_in_window take_global_request run_count set_run_count take_run_request
    binding_denial authorize_operation authorize_record authorize_token decide_found decide_token
    decide tool_value role_capabilities tool_of role_of has_tool capability_record contains
decide-IsEntitled_example =
    decide-IsEntitled every_tool "r" end hash_of limits (some 10) 50 session "lean.goal" database
      before after goal_call refl

decide-counts_example :
    (t : ℕ) × (some 10 ≡ some t)
    × IsCounted limits t before after
    × (run_count "run" after.run_counts ≡ run_count "run" before.run_counts + 1)
    × (run_count "run" after.run_counts ≤ limits.run_budget)
unfolding open_window take_in_window take_global_request run_count set_run_count take_run_request
    binding_denial authorize_operation authorize_record authorize_token decide_found decide_token
    decide tool_value role_capabilities tool_of role_of has_tool capability_record contains
decide-counts_example =
    decide-counts limits every_tool "r" end hash_of (some 10) 50 session "lean.goal" database before
      after goal_call refl

abbrev request : Request
request = record {
  request_id = "r";
  payload = end;
  monotonic = some 10;
  now = 50;
  session = session;
  operation = "lean.goal";
  database = database;
}

let_through-within_example :
    let_through limits every_tool hash_of "run" (request ∷ request ∷ []) before
      + run_count "run" before.run_counts
    ≤ limits.run_budget
unfolding run_count
let_through-within_example =
    let_through-within limits every_tool hash_of "run" (request ∷ request ∷ []) before (omega arith)

-- Both of these requests get through.
let_through-two : let_through limits every_tool hash_of "run" (request ∷ request ∷ []) before ≡ 2
unfolding let_through lets open_window take_in_window take_global_request run_count set_run_count
    take_run_request binding_denial authorize_operation authorize_record authorize_token
    decide_found decide_token decide tool_value role_capabilities tool_of role_of has_tool
    capability_record contains
let_through-two = refl

decide-mint_example :
    decide every_tool "r" end hash_of limits
      (some 10)
      50
      (session_of "secret" grant)
      (tool_value lean_goal)
      minted_database
      before
    ≡ (authorized (granted_call "r" end grant lean_goal), after)
decide-mint_example =
    decide-mint every_text hash_of one_time unchanging every_tool "r" end limits mint_stamp "secret"
      "secret" grant lean_goal (some 10) 50 initial minted_database minted_database before counted
      after grant-checked grant-minted refl grant-holds refl (omega arith) window-room budget-room
