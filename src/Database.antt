-- ===== src/Database.antt =====
-- The tables of the state database (state/sql/001_foundation.sql). A list holds the rows in the order
-- of insertion, and those of the projections in the order of their keys; the two counters are those of the AUTOINCREMENT keys.
use aizim.Prelude.{ℕ, Option, List, [], ◌∷◌, String}
use aizim.Json.{ℤ, pos, integer, object, end, field}
use aizim.Events.{EventRecord}
use aizim.Projections.{ProjectionRecord}

-- `PublicationQueueState` (state/publications.py)
pub data QueueState : Type 0 where
  queued staged verified materialized published quarantined : QueueState

pub record PublicationQueueEntry : Type 0 where
  pub contribution_id : String
  pub enqueue_sequence : ℕ
  pub state : QueueState
  pub state_version : ℕ
  pub claimed_by : Option String
  pub claimed_at : Option ℕ

-- `CapabilityRecord` (state/capabilities.py)
pub record CapabilityRecord : Type 0 where
  pub token_hash : String
  pub run_id : String
  pub worker_id : String
  pub role : String
  pub lease_id : Option String
  pub operations : List String
  pub expires_at : ℕ
  pub revoked_at : Option ℕ

pub record Artifact : Type 0 where
  pub content_hash : String
  pub run_id : String
  pub relative_path : String
  pub media_type : String
  pub byte_length : ℤ

pub record ArtifactAssociation : Type 0 where
  pub run_id : String
  pub artifact_name : String
  pub relative_path : String
  pub content_hash : String
  pub media_type : String
  pub byte_length : ℤ

pub record Database : Type 0 where
  pub events : List EventRecord
  pub event_sequence : ℕ
  pub projections : List ProjectionRecord
  pub capability_tokens : List CapabilityRecord
  pub publication_queue : List PublicationQueueEntry
  pub queue_sequence : ℕ
  pub artifacts : List Artifact
  pub artifact_associations : List ArtifactAssociation

-- A database that `_initialize` has made: the epoch is there at version 0, before any event.
abbrev pub initial : Database
initial = record {
  events = [];
  event_sequence = 0;
  projections =
      record {
        projection_name = "epochs";
        entity_id = "global";
        version = 0;
        state_json = object (field "knowledge_epoch" (integer (pos 0)) end);
      }
      ∷ [];
  capability_tokens = [];
  publication_queue = [];
  queue_sequence = 0;
  artifacts = [];
  artifact_associations = [];
}
