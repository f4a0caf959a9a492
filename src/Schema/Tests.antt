-- ===== src/Schema/Tests.antt =====
-- Payloads and envelopes, and the theorems on the validation at them.
use aizim.Prelude.{◌≡◌, refl, Bool, true, false, none, some, [], ◌∷◌, String}
use aizim.Outcome.{ok, raised, event_validation_error}
use aizim.Json.{JsonObject, string, field, end, get}
use aizim.Projections.{contains}
use aizim.Events.{EventEnvelope, type_name, lease_released}
use aizim.Documents.{Formats, LeaseState, parsed_timestamp, ends_in_z, without_last}
use aizim.Schema.{
  PayloadCodec, codec_of, find_validator, field_validators, validator_of, missing_fields,
  unknown_fields, validate_fields, validate, every_character,
}
use aizim.Schema.Accepted.{IsAccepted, validate-IsAccepted}
use aizim.Schema.Orchestration.{orchestration_codec}
use aizim.Schema.Codecs.{core_codec, validate_payload}
use aizim.Schema.Envelopes.{type_named, is_ulid, new_envelope, event_as_dict, upcast}
use aizim.Schema.Upcasts.{upcast-event_as_dict}

abbrev hash : String
hash = "aaaaaaaaaaaaaaaaaaaaaaaaaaaaaaaaaaaaaaaaaaaaaaaaaaaaaaaaaaaaaaaa"

abbrev formats : Formats
formats = record {
  canonical_timestamp = λ t. "2026-01-01T00:00:00Z";
  fromisoformat = λ t. some 9000000;
  as_posix = λ t. t;
}

abbrev no_record : JsonObject → Bool
no_record payload = false

abbrev release : JsonObject
release = field "lease_id" (string "lease") (field "reason_code" (string "RELEASED") end)

abbrev release_codec : PayloadCodec
release_codec = codec_of ("lease_id" ∷ []) ("reason_code" ∷ []) []

release-valid : validate "LeaseReleased" release_codec release ≡ ok tt
unfolding validate find_validator field_validators validator_of missing_fields unknown_fields
    validate_fields contains get
release-valid = refl

validate-IsAccepted_example : IsAccepted release_codec release
validate-IsAccepted_example =
    validate-IsAccepted "LeaseReleased" release_codec release tt release-valid

missing_lease :
    validate_payload formats no_record lease_released end
    ≡ raised (event_validation_error "LeaseReleased" "missing fields: lease_id")
unfolding validate_payload validate find_validator field_validators validator_of missing_fields
    unknown_fields validate_fields contains get core_codec orchestration_codec type_name
missing_lease = refl

abbrev lease : LeaseState
lease = record {
  lease_id = "lease";
  worker_id = "worker";
  run_id = "run";
  document_id = "document";
  relative_path = "A.lean";
  virtual_document_namespace = "space";
  epoch_pair = record { base_epoch = hash; knowledge_epoch = 0 };
  file_version = 0;
  content_hash = hash;
  expires_at = 9000000;
  active = true;
}

abbrev envelope : EventEnvelope
envelope = record {
  event_id = "01ARZ3NDEKTSV4RRFFQ69G5FAV";
  schema_version = 1;
  event_type = lease_released;
  occurred_at = 9000000;
  actor = "document_broker";
  run_id = some "run";
  causation_id = none;
  payload = release;
}

envelope-made :
    new_envelope formats no_record "01ARZ3NDEKTSV4RRFFQ69G5FAV" 1 "LeaseReleased" 9000000
      "document_broker"
      (some "run")
      none
      release
    ≡ ok envelope
unfolding new_envelope is_ulid type_named validate_payload validate find_validator field_validators
    validator_of missing_fields unknown_fields validate_fields contains get core_codec
    orchestration_codec type_name every_character
envelope-made = refl

envelope-time : parsed_timestamp formats (formats.canonical_timestamp 9000000) ≡ some 9000000
unfolding parsed_timestamp ends_in_z without_last
envelope-time = refl

upcast-event_as_dict_example :
    upcast formats no_record (event_as_dict formats envelope) ≡ ok envelope
upcast-event_as_dict_example =
    upcast-event_as_dict formats no_record "01ARZ3NDEKTSV4RRFFQ69G5FAV" 1 "LeaseReleased" 9000000
      "document_broker" (some "run") none release envelope envelope-made envelope-time
