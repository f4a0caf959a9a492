-- ===== src/Documents.antt =====
-- Documents and the leases on them (state/documents.py, and EpochPair and FileLease of
-- domain/model.py). A path is the text that `as_posix` gives of it.
pub mod Active
pub mod Appends
pub mod Calls
pub mod Accesses
pub mod Cycle
pub mod Edits
pub mod Endings
pub mod Exclusive
pub mod Grants
pub mod Leases
pub mod Methods
pub mod Operations
pub mod Readings
pub mod Records
pub mod Snapshots
mod Tests
pub mod Updates
pub mod Written
use Prim.Native.Char.{code}
use Prim.Native.String.{◌++◌ as append}
use aizim.Prelude.{
  ℕ, zero, suc, Bool, true, false, ◌&&◌, ◌||◌, not, Option, none, some, String, same_text, is_some,
  ◌==◌, leb, if◌then◌else◌,
}
use aizim.Outcome.{Outcome, ok, raised, raise_if, document_state_error, ◌>>=◌, ◌>>◌}
use aizim.Json.{
  JsonValue, JsonObject, null, string, integer, pos, end, field, get, get_text, get_natural,
  get_object, as_text, as_object,
}
use aizim.Projections.{ProjectionRecord}

-- What Python's library does with times and paths: `isoformat` with its final "Z",
-- `datetime.fromisoformat`, and `PurePosixPath(text).as_posix()`.
pub record Formats : Type 0 where
  pub canonical_timestamp : ℕ → String
  pub fromisoformat : String → Option ℕ
  pub as_posix : String → String

pub record EpochPair : Type 0 where
  pub base_epoch : String
  pub knowledge_epoch : ℕ

abbrev pub same_epochs : EpochPair → EpochPair → Bool
same_epochs a b = same_text a.base_epoch b.base_epoch && a.knowledge_epoch == b.knowledge_epoch

pub record FileLease : Type 0 where
  pub lease_id : String
  pub worker_id : String
  pub run_id : String
  pub document_id : String
  pub virtual_document_namespace : String
  pub epoch_pair : EpochPair
  pub file_version : ℕ
  pub content_hash : String
  pub expires_at : ℕ
  pub physical_file : Option String

pub record LeaseState : Type 0 where
  pub lease_id : String
  pub worker_id : String
  pub run_id : String
  pub document_id : String
  pub relative_path : String
  pub virtual_document_namespace : String
  pub epoch_pair : EpochPair
  pub file_version : ℕ
  pub content_hash : String
  pub expires_at : ℕ
  pub active : Bool

pub record DocumentState : Type 0 where
  pub document_id : String
  pub run_id : String
  pub worker_id : String
  pub lease_id : String
  pub relative_path : String
  pub virtual_document_namespace : String
  pub epoch_pair : EpochPair
  pub file_version : ℕ
  pub content_hash : String
  pub expires_at : ℕ
  pub prepared_event_id : Option String

pub record DocumentPreparation : Type 0 where
  pub preparation_id : String
  pub document : DocumentState

-- `[0-9a-f]`
abbrev pub is_hex : ℕ → Bool
is_hex c = leb 48 c && leb c 57 || leb 97 c && leb c 102

-- `re.fullmatch(r"[0-9a-f]{64}", value)`, for any number of characters
unfoldable pub hex_digits : ℕ → String → Bool
hex_digits zero String.[] = true
hex_digits zero (String.◌∷◌ c s) = false
hex_digits (suc n) String.[] = false
hex_digits (suc n) (String.◌∷◌ c s) = is_hex (code c) && hex_digits n s

unfoldable pub is_hash : String → Bool
unfolding hex_digits
is_hash value = hex_digits 64 value

abbrev pub has_characters : String → Bool
has_characters value = not (same_text value "")

-- The checks of `FileLease.__post_init__` and of its epochs that depend on the values
unfoldable pub valid_lease : FileLease → Bool
valid_lease lease =
    has_characters lease.lease_id
    && has_characters lease.worker_id
    && has_characters lease.run_id
    && has_characters lease.document_id
    && has_characters lease.virtual_document_namespace
    && is_hash lease.epoch_pair.base_epoch
    && is_hash lease.content_hash

abbrev pub refused {ℓ} : {A : Type ℓ} → String → Outcome A
refused reason = raised (document_state_error reason)

abbrev pub require_some {ℓ} : {A : Type ℓ} → String → Option A → Outcome A
require_some reason none = refused reason
require_some reason (some a) = ok a

abbrev pub require_that {ℓ} : {A : Type ℓ} → (A → Bool) → String → Option A → Outcome A
require_that p reason none = refused reason
require_that p reason (some a) = if p a then ok a else refused reason

-- `value.endswith("Z")`
unfoldable pub ends_in_z : String → Bool
ends_in_z String.[] = false
ends_in_z (String.◌∷◌ c String.[]) = code c == 90
ends_in_z (String.◌∷◌ c (String.◌∷◌ d s)) = ends_in_z (String.◌∷◌ d s)

-- A text without its last character.
unfoldable pub without_last : String → String
without_last String.[] = ""
without_last (String.◌∷◌ c String.[]) = ""
without_last (String.◌∷◌ c (String.◌∷◌ d s)) = String.◌∷◌ c (without_last (String.◌∷◌ d s))

module _ (formats : Formats) where
  -- `_timestamp` of a text
  unfoldable pub parsed_timestamp : String → Option ℕ
  unfolding ends_in_z without_last
  parsed_timestamp value =
      if ends_in_z value
      then elim (formats.fromisoformat (append (without_last value) "+00:00")) [
        | none ↦ none
        | some parsed ↦
            if same_text (formats.canonical_timestamp parsed) value then some parsed else none
      ]
      else none

  -- `_timestamp(payload.get(name))`
  unfoldable pub timestamp : String → JsonObject → Outcome ℕ
  unfolding parsed_timestamp
  timestamp name payload = elim (get_text name payload) [
    | none ↦ refused "INVALID_DOCUMENT_STATE"
    | some value ↦ require_some "INVALID_DOCUMENT_STATE" (parsed_timestamp value)
  ]

-- `_text`
unfoldable pub text_field : String → JsonObject → Outcome String
text_field name payload =
    require_that has_characters "INVALID_DOCUMENT_STATE" (get_text name payload)

-- `_integer`
unfoldable pub integer_field : String → JsonObject → Outcome ℕ
integer_field name payload = require_some "INVALID_DOCUMENT_STATE" (get_natural name payload)

-- `_hash`
unfoldable pub hash_field : String → JsonObject → Outcome String
unfolding text_field is_hash
hash_field name payload = do
  value ← text_field name payload
  (if is_hash value then ok value else refused "INVALID_DOCUMENT_STATE")

-- `LeaseState.validate_access`
unfoldable pub validate_access :
    LeaseState → String → String → String → ℕ → EpochPair → Outcome (Unit {0})
validate_access lease run_id worker_id document_id now epoch_pair = do
  raise_if (not lease.active) (document_state_error "LEASE_INACTIVE")
  raise_if (not (same_text lease.run_id run_id)) (document_state_error "LEASE_RUN_MISMATCH")
  raise_if (not (same_text lease.worker_id worker_id)) (document_state_error "LEASE_OWNER_MISMATCH")
  raise_if (not (same_text lease.document_id document_id))
      (document_state_error "LEASE_DOCUMENT_MISMATCH")
  raise_if (leb lease.expires_at now) (document_state_error "LEASE_EXPIRED")
  raise_if (not (same_epochs lease.epoch_pair epoch_pair)) (document_state_error "EPOCH_MISMATCH")

-- `DocumentState.validate_expected`
unfoldable pub validate_expected : DocumentState → ℕ → String → Outcome (Unit {0})
validate_expected document version content_hash = do
  raise_if (not (document.file_version == version))
      (document_state_error "DOCUMENT_VERSION_MISMATCH")
  raise_if (not (same_text document.content_hash content_hash))
      (document_state_error "DOCUMENT_HASH_MISMATCH")

-- The lease that `DocumentState.payload` builds.
abbrev pub lease_of_document : DocumentState → LeaseState
lease_of_document document = record {
  lease_id = document.lease_id;
  worker_id = document.worker_id;
  run_id = document.run_id;
  document_id = document.document_id;
  relative_path = document.relative_path;
  virtual_document_namespace = document.virtual_document_namespace;
  epoch_pair = document.epoch_pair;
  file_version = document.file_version;
  content_hash = document.content_hash;
  expires_at = document.expires_at;
  active = true;
}

module _ (formats : Formats) where
  -- The entries of `LeaseState.payload`, before others.
  abbrev pub lease_fields : LeaseState → JsonObject → JsonObject
  lease_fields lease others = field "lease_id" (string lease.lease_id) (
      field "worker_id" (string lease.worker_id) (
        field "document_id" (string lease.document_id) (
          field "relative_path" (string lease.relative_path) (
            field "virtual_document_namespace" (string lease.virtual_document_namespace) (
              field "base_epoch" (string lease.epoch_pair.base_epoch) (
                field "knowledge_epoch" (integer (pos lease.epoch_pair.knowledge_epoch)) (
                  field "version" (integer (pos lease.file_version)) (
                    field "content_hash" (string lease.content_hash) (
                      field "expires_at" (string (formats.canonical_timestamp lease.expires_at))
                        others)))))))))

  -- `LeaseState.payload`
  unfoldable pub lease_state_payload : LeaseState → JsonObject
  lease_state_payload lease = lease_fields lease end

  -- `DocumentState.payload`
  unfoldable pub document_payload : DocumentState → JsonObject
  unfolding lease_state_payload
  document_payload document = lease_state_payload (lease_of_document document)

  -- The state that a lease of the domain has at a path.
  abbrev pub leased : FileLease → String → LeaseState
  leased lease relative_path = record {
    lease_id = lease.lease_id;
    worker_id = lease.worker_id;
    run_id = lease.run_id;
    document_id = lease.document_id;
    relative_path = formats.as_posix relative_path;
    virtual_document_namespace = lease.virtual_document_namespace;
    epoch_pair = lease.epoch_pair;
    file_version = lease.file_version;
    content_hash = lease.content_hash;
    expires_at = lease.expires_at;
    active = true;
  }

  -- `lease_payload`
  unfoldable pub lease_payload : FileLease → String → JsonObject
  unfolding lease_state_payload
  lease_payload lease relative_path = lease_state_payload (leased lease relative_path)
