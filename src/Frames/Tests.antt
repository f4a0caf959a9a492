-- ===== src/Frames/Tests.antt =====
-- A call, its answer, and the theorems on frames at them.
use aizim.Prelude.{
  String, ◌+◌, ◌≢◌, ℕ, zero, suc, ◌≡◌, refl, true, false, Option, none, some, [], ◌∷◌, ◌++◌, length,
  take, drop, leb,
}
use aizim.Outcome.{ok}
use aizim.Json.{
  JsonValue, JsonObject, null, boolean, string, object, end, field, get, get_text, get_object, size,
}
use aizim.Frames.{
  Bytes, JsonCodec, ReadsBack, call_document, same_bytes, encode_call, decode_sized, decode_call,
  read_frame, from_bytes, succeeded, result_document, response_limit, write_result, decode_result,
  rpc_frame_limit,
}
use aizim.Frames.Calls.{decode_call-encode_call, decode_call-secret}
use aizim.Frames.Streams.{write_result-read, delivered}

abbrev payload : JsonObject
payload = field "name" (string "x") end

abbrev secret : Bytes
secret = 7 ∷ 8 ∷ []

-- The one document that these runs send has one text.
abbrev call_codec : JsonCodec
call_codec = record {
  canonical_json = λ v. 1 ∷ [];
  loads = λ b. some (call_document "goal" payload);
  decode = λ b. some "secret";
}

abbrev call_body : Bytes
call_body = 0 ∷ 2 ∷ 7 ∷ 8 ∷ 1 ∷ []

call-encoded : encode_call call_codec "goal" payload secret ≡ ok call_body
unfolding encode_call
call-encoded = refl

call-decoded : decode_call call_codec call_body secret ≡ ok (some ("goal", payload, "secret"))
unfolding decode_call decode_sized same_bytes get_text get_object get size
call-decoded = refl

decode_call-encode_call_example :
    decode_call call_codec call_body secret ≡ ok (some ("goal", payload, "secret"))
decode_call-encode_call_example =
    decode_call-encode_call call_codec "goal" "secret" payload secret call_body
      (record { decoded = refl; nonempty = refl }) refl call-encoded refl

decode_call-secret_example :
    (take (from_bytes 0 (take 2 call_body)) (drop 2 call_body) ≡ secret)
    × ((o : JsonObject) × (call_codec.loads (drop (from_bytes 0 (take 2 call_body) + 2) call_body)
          ≡ some (object o))
        × (get_text "operation" o ≡ some "goal")
        × (get_object "payload" o ≡ some payload)
        × ◌≢◌ {A = String} "goal" "")
    × (call_codec.decode secret ≡ some "secret")
decode_call-secret_example =
    decode_call-secret call_codec call_body secret "goal" "secret" payload call-decoded

-- A result and the failure of the limit have a text each.
abbrev result_text : JsonValue → Bytes
result_text (object (field k (boolean true) o)) = 1 ∷ []
result_text _ = 2 ∷ []

abbrev read_text : ℕ → Option JsonValue
read_text zero = none
read_text (suc zero) = some (object (field "ok" (boolean true) (field "result" null end)))
read_text (suc (suc n)) = some (
    object (
      field "ok" (boolean false) (
        field "error"
          (object (
            field "code" (string "GATEWAY_RESPONSE_LIMIT") (
              field "message" (string "gateway response is too large")
                (field "event_id" null end))))
          end)))

abbrev result_codec : JsonCodec
result_codec = record {
  canonical_json = result_text;
  loads = λ b. read_text (from_bytes 0 b);
  decode = λ b. none;
}

success-ReadsBack : ReadsBack result_codec (object (result_document (succeeded null)))
unfolding result_document
success-ReadsBack = record { decoded = refl; nonempty = refl }

limit-ReadsBack : ReadsBack result_codec (object (result_document response_limit))
unfolding result_document
limit-ReadsBack = record { decoded = refl; nonempty = refl }

limit-fits :
    leb
      (length (result_codec.canonical_json (object (result_document response_limit))))
      rpc_frame_limit
    ≡ true
unfolding result_document
limit-fits = refl

write_result-read_example :
    (body : Bytes) × (read_frame true (write_result result_codec (succeeded null) ++ 9 ∷ [])
      ≡ ok (some body, 9 ∷ []))
    × (decode_result result_codec body ≡ ok (delivered result_codec (succeeded null)))
write_result-read_example =
    write_result-read result_codec true (succeeded null) (9 ∷ []) success-ReadsBack limit-ReadsBack
      limit-fits
