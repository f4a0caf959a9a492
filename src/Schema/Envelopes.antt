-- ===== src/Schema/Envelopes.antt =====
-- Envelopes and the dictionaries that they are stored as (state/events.py).
use Prim.Native.Char.{code}
use Prim.Native.String.{◌++◌ as append}
use aizim.Prelude.{
  ℕ, Bool, false, ◌&&◌, ◌||◌, not, Option, none, some, List, [], ◌∷◌, String, same_text, ◌==◌,
  if◌then◌else◌,
}
use aizim.Outcome.{
  Outcome, ok, raised, raise_if, event_validation_error, incompatible_event_schema_error, ◌>>=◌,
  ◌>>◌,
}
use aizim.Json.{
  ℤ, JsonValue, JsonObject, null, string, integer, object, pos, end, field, get, get_text,
  get_integer, get_object, integer_eq, text_or_null,
}
use aizim.Events.{
  EventType, EventEnvelope, type_name, event_schema_version, research_record_updated,
  project_initialized, run_created, run_completed, run_aborted, artifact_registered,
  formal_trace_sealed, evaluation_transition_rejected, schedule_proposed, controller_configured,
  worker_registered, worker_configured, worker_task_assigned, worker_started, worker_stopped,
  worker_crashed, worker_timed_out, agent_run_completed, worker_cursor_saved, capability_minted,
  capability_denied, sandbox_probe_started, sandbox_probe_denied, sandbox_probe_passed,
  sandbox_probe_failed, lease_granted, lease_released, lease_recovered, document_edit_prepared,
  document_edited, document_edit_recovered, formal_action_recorded, contribution_submitted,
  contribution_rebased, contribution_enqueued, promotion_state_changed, promotion_prepared,
  promotion_verification_recorded, promotion_failed, declaration_published,
  knowledge_delta_published, knowledge_delta_acknowledged, lean_runtime_started,
  lean_runtime_crashed, lean_runtime_restarted, lean_runtime_stopped,
  environment_transition_proposed, environment_transition_approved, environment_transition_rejected,
  alignment_reviewed, intervention_recorded, controller_started, controller_stopped,
  controller_crashed, worker_task_claimed, worker_task_dispatch_planned, worker_task_completed,
  worker_task_failed, worker_task_interrupted,
}
use aizim.Documents.{Formats, has_characters, parsed_timestamp}
use aizim.Schema.{text_length, every_character, missing_fields, unknown_fields, sorted, join}
use aizim.Schema.Codecs.{validate_payload}

pub all_types : List EventType
all_types =
    research_record_updated ∷ project_initialized ∷ run_created ∷ run_completed ∷ run_aborted
    ∷ artifact_registered ∷ formal_trace_sealed ∷ evaluation_transition_rejected ∷ schedule_proposed
    ∷ controller_configured ∷ worker_registered ∷ worker_configured ∷ worker_task_assigned
    ∷ worker_started ∷ worker_stopped ∷ worker_crashed ∷ worker_timed_out ∷ agent_run_completed
    ∷ worker_cursor_saved ∷ capability_minted ∷ capability_denied ∷ sandbox_probe_started
    ∷ sandbox_probe_denied ∷ sandbox_probe_passed ∷ sandbox_probe_failed ∷ lease_granted
    ∷ lease_released ∷ lease_recovered ∷ document_edit_prepared ∷ document_edited
    ∷ document_edit_recovered ∷ formal_action_recorded ∷ contribution_submitted
    ∷ contribution_rebased ∷ contribution_enqueued ∷ promotion_state_changed ∷ promotion_prepared
    ∷ promotion_verification_recorded ∷ promotion_failed ∷ declaration_published
    ∷ knowledge_delta_published ∷ knowledge_delta_acknowledged ∷ lean_runtime_started
    ∷ lean_runtime_crashed ∷ lean_runtime_restarted ∷ lean_runtime_stopped
    ∷ environment_transition_proposed ∷ environment_transition_approved
    ∷ environment_transition_rejected ∷ alignment_reviewed ∷ intervention_recorded
    ∷ controller_started ∷ controller_stopped ∷ controller_crashed ∷ worker_task_claimed
    ∷ worker_task_dispatch_planned ∷ worker_task_completed ∷ worker_task_failed
    ∷ worker_task_interrupted ∷ []

unfoldable pub find_type : String → List EventType → Option EventType
find_type name [] = none
find_type name (t ∷ ts) =
    let rest = find_type name ts in if same_text (type_name t) name then some t else rest

-- The type of event that a text names.
unfoldable pub type_named : String → Option EventType
unfolding all_types find_type type_name
type_named name = find_type name all_types

has_character : ℕ → String → Bool
has_character c String.[] = false
has_character c (String.◌∷◌ d s) = c == code d || has_character c s

-- A 26-character text of the alphabet `_ULID_ALPHABET`
unfoldable pub is_ulid : String → Bool
unfolding has_character every_character
is_ulid s =
    text_length s == 26
    && every_character (λ c. has_character c "0123456789ABCDEFGHJKMNPQRSTVWXYZ") s

-- `_text`
abbrev pub require_text : String → String → Outcome (Unit {0})
require_text value location =
    raise_if (not (has_characters value))
      (event_validation_error location "must be a non-empty string")

abbrev pub require_text? : Option String → String → Outcome (Unit {0})
require_text? none location = ok tt
require_text? (some value) location = require_text value location

module _ (formats : Formats) where
  -- `event_as_dict`
  unfoldable pub event_as_dict : EventEnvelope → JsonObject
  event_as_dict event = field "event_id" (string event.event_id) (
      field "schema_version" (integer (pos event.schema_version)) (
        field "event_type" (string (type_name event.event_type)) (
          field "occurred_at" (string (formats.canonical_timestamp event.occurred_at)) (
            field "actor" (string event.actor) (
              field "run_id" (text_or_null event.run_id) (
                field "causation_id" (text_or_null event.causation_id)
                  (field "payload" (object event.payload) end)))))))

-- `_EVENT_FIELDS`
abbrev pub event_fields : List String
event_fields =
    "event_id" ∷ "schema_version" ∷ "event_type" ∷ "occurred_at" ∷ "actor" ∷ "run_id"
    ∷ "causation_id" ∷ "payload" ∷ []

-- The check of `_upcast_v1` on the fields: those that are missing are named first.
abbrev refuse_event_fields : List String → List String → Outcome (Unit {0})
refuse_event_fields [] [] = ok tt
refuse_event_fields [] (k ∷ ks) =
    raised (event_validation_error "event" (append "unknown fields: " (join (sorted (k ∷ ks)))))
refuse_event_fields (k ∷ ks) _ =
    raised (event_validation_error "event" (append "missing fields: " (join (sorted (k ∷ ks)))))

-- `_required_text_value`
abbrev pub text_or_refuse : String → Option String → Outcome String
text_or_refuse key none = raised (event_validation_error key "must be a non-empty string")
text_or_refuse key (some value) =
    if has_characters value
    then ok value
    else raised (event_validation_error key "must be a non-empty string")

unfoldable pub required_text_value : String → JsonObject → Outcome String
required_text_value key event = text_or_refuse key (get_text key event)

-- `_optional_text_value`
abbrev pub null_or_text : String → Option JsonValue → Outcome (Option String)
null_or_text key (some null) = ok none
null_or_text key (some (string value)) =
    if has_characters value
    then ok (some value)
    else raised (event_validation_error key "must be a non-empty string or null")
null_or_text key _ = raised (event_validation_error key "must be a non-empty string or null")

unfoldable pub optional_text_value : String → JsonObject → Outcome (Option String)
optional_text_value key event = null_or_text key (get key event)

-- `_timestamp`
abbrev pub time_or_refuse : Option ℕ → Outcome ℕ
time_or_refuse none = raised (event_validation_error "occurred_at" "must be canonical UTC RFC 3339")
time_or_refuse (some at) = ok at

abbrev object_or_refuse : Option JsonObject → Outcome JsonObject
object_or_refuse none = raised (event_validation_error "payload" "must be a JSON object")
object_or_refuse (some payload) = ok payload

module _ (formats : Formats) (valid_record : JsonObject → Bool) where
  -- The last check of `EventEnvelope.__init__`, and the envelope.
  abbrev pub checked_envelope :
      String
      → ℕ
      → String
      → ℕ
      → String
      → Option String
      → Option String
      → JsonObject
      → Option EventType
      → Outcome EventEnvelope
  checked_envelope event_id version type_text at actor run cause payload none =
      raised
        (event_validation_error "event_type" (append "unknown event type '" (append type_text "'")))
  checked_envelope event_id version type_text at actor run cause payload (some t) = do
    validate_payload formats valid_record t payload
    ok (record {
      event_id = event_id;
      schema_version = version;
      event_type = t;
      occurred_at = at;
      actor = actor;
      run_id = run;
      causation_id = cause;
      payload = payload;
    })

  -- `EventEnvelope.__init__`
  unfoldable pub new_envelope :
      String
      → ℕ
      → String
      → ℕ
      → String
      → Option String
      → Option String
      → JsonObject
      → Outcome EventEnvelope
  unfolding is_ulid type_named
  new_envelope event_id version type_text at actor run cause payload = do
    require_text event_id "event_id"
    raise_if (not (is_ulid event_id))
        (event_validation_error "event_id" "must be a 26-character Crockford ULID")
    raise_if (not (version == event_schema_version)) (incompatible_event_schema_error (pos version))
    require_text type_text "event_type"
    require_text actor "actor"
    require_text? run "run_id"
    require_text? cause "causation_id"
    checked_envelope event_id version type_text at actor run cause payload (type_named type_text)

  -- `_upcast_v1`
  unfoldable pub upcast_v1 : JsonObject → Outcome EventEnvelope
  unfolding required_text_value optional_text_value missing_fields unknown_fields parsed_timestamp
      new_envelope
  upcast_v1 event = do
    refuse_event_fields (missing_fields event_fields event) (unknown_fields event_fields event)
    payload ← object_or_refuse (get_object "payload" event)
    event_id ← required_text_value "event_id" event
    type_text ← required_text_value "event_type" event
    time_text ← required_text_value "occurred_at" event
    at ← time_or_refuse (parsed_timestamp formats time_text)
    actor ← required_text_value "actor" event
    run ← optional_text_value "run_id" event
    cause ← optional_text_value "causation_id" event
    new_envelope event_id event_schema_version type_text at actor run cause payload

  abbrev pub upcast_from : JsonObject → Option ℤ → Outcome EventEnvelope
  upcast_from event none = raised (event_validation_error "schema_version" "must be an integer")
  upcast_from event (some version) =
      if integer_eq version (pos 1)
      then upcast_v1 event
      else raised (incompatible_event_schema_error version)

  -- `upcast`
  unfoldable pub upcast : JsonObject → Outcome EventEnvelope
  unfolding upcast_v1 integer_eq
  upcast event = upcast_from event (get_integer "schema_version" event)
