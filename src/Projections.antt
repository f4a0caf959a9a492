-- ===== src/Projections.antt =====
-- Projection records and the names that they may have (state/projection_types.py and
-- state/projections.py, `PROJECTION_NAMES`).
use aizim.Prelude.{
  ℕ, Bool, false, ◌||◌, ◌&&◌, Option, none, some, List, [], ◌∷◌, String, same_text, codes_before,
  if◌then◌else◌,
}
use aizim.Json.{JsonValue}

pub record ProjectionRecord : Type 0 where
  pub projection_name : String
  pub entity_id : String
  pub version : ℕ
  pub state_json : JsonValue

pub projection_names : List String
projection_names =
    "research" ∷ "project" ∷ "runs" ∷ "artifacts" ∷ "evaluations" ∷ "schedules" ∷ "controller"
    ∷ "workers" ∷ "worker_roster" ∷ "worker_assignments" ∷ "controller_runtime"
    ∷ "worker_executions" ∷ "worker_cursors" ∷ "epochs" ∷ "leases" ∷ "documents" ∷ "formal_actions"
    ∷ "contributions" ∷ "verified_declarations" ∷ "knowledge_deltas" ∷ "knowledge_acknowledgements"
    ∷ "denials" ∷ "resources" ∷ "alignment_reviews" ∷ "interventions" ∷ []

-- `name in PROJECTION_NAMES`
unfoldable pub contains : String → List String → Bool
contains k [] = false
contains k (x ∷ xs) = same_text x k || contains k xs

unfoldable pub is_registered : String → Bool
unfolding projection_names contains
is_registered name = contains name projection_names

-- The key of a record is its projection name with its entity.
abbrev pub at_key : String → String → ProjectionRecord → Bool
at_key name entity r = same_text r.projection_name name && same_text r.entity_id entity

-- `next((item for item in snapshots if ...), None)`
unfoldable pub find_record : String → String → List ProjectionRecord → Option ProjectionRecord
find_record name entity [] = none
find_record name entity (r ∷ rs) =
    if at_key name entity r then some r else find_record name entity rs

-- `ORDER BY projection_name,entity_id`
unfoldable pub row_before : ProjectionRecord → ProjectionRecord → Bool
unfolding codes_before
row_before a b =
    codes_before a.projection_name b.projection_name
    || same_text a.projection_name b.projection_name && codes_before a.entity_id b.entity_id
