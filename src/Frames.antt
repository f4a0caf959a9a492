-- ===== src/Frames.antt =====
-- The frames between a worker and the gateway (gateway/transport_frames.py). A byte is a number, and a
-- stream is the list of the bytes that are still to come.
pub mod Calls
pub mod Streams
mod Tests
use aizim.Prelude.{
  ◌≡◌, ℕ, ◌+◌, ◌*◌, ◌/◌, ◌%◌, Bool, true, false, ◌&&◌, ◌||◌, not, Option, none, some, List, [], ◌∷◌,
  ◌++◌, String, length, take, drop, leb, ltb, ◌==◌, is_some, if◌then◌else◌,
}
use aizim.Outcome.{
  Outcome, ok, raised, raise_if, gateway_transport_error, incomplete_read_error,
  unicode_decode_error, ◌>>=◌, ◌>>◌,
}
use aizim.Json.{
  JsonValue, JsonObject, null, boolean, string, object, end, field, get, get_text, get_object, size,
  text_or_null,
}
use aizim.Documents.{has_characters}

abbrev pub Bytes : Type 0
Bytes = List ℕ

-- `canonical_json` (domain/serialization.py), which is a text of a JSON library after a walk over the
-- types of Python, `json.loads` and `bytes.decode` (nothing where they raise).
pub record JsonCodec : Type 0 where
  pub canonical_json : JsonValue → Bytes
  pub loads : Bytes → Option JsonValue
  pub decode : Bytes → Option String

-- What Python documents of them: a value is read back from its text, which is not empty.
pub record ReadsBack (codec : JsonCodec) (v : JsonValue) : Type 0 where
  pub decoded : codec.loads (codec.canonical_json v) ≡ some v
  pub nonempty : leb 1 (length (codec.canonical_json v)) ≡ true

-- `RPC_FRAME_LIMIT`
abbrev pub rpc_frame_limit : ℕ
rpc_frame_limit = 1048576

-- `TOKEN_LIMIT`
abbrev pub token_limit : ℕ
token_limit = 4096

-- `n.to_bytes(2, "big")`
abbrev pub two_bytes : ℕ → Bytes
two_bytes n = n / 256 ∷ n % 256 ∷ []

-- `n.to_bytes(4, "big")`
abbrev pub four_bytes : ℕ → Bytes
four_bytes n = n / 16777216 ∷ n / 65536 % 256 ∷ n / 256 % 256 ∷ n % 256 ∷ []

-- `int.from_bytes(bytes, "big")`
abbrev pub from_bytes : ℕ → Bytes → ℕ
from_bytes n [] = n
from_bytes n (b ∷ bs) = from_bytes (n * 256 + b) bs

-- Equality of bytes, as `compare_digest` decides it.
unfoldable pub same_bytes : Bytes → Bytes → Bool
same_bytes [] [] = true
same_bytes (a ∷ x) (b ∷ y) = a == b && same_bytes x y
same_bytes _ _ = false

abbrev pub unavailable : String
unavailable = "GATEWAY_UNAVAILABLE"

-- `reader.readexactly(n)`
unfoldable pub read_exactly : ℕ → Bytes → Outcome (Bytes × Bytes)
read_exactly n stream =
    if leb n (length stream)
    then ok (take n stream, drop n stream)
    else raised incomplete_read_error

-- The rest of `read_frame`, once the size is known.
unfoldable pub read_sized : ℕ → Bytes → Outcome (Option Bytes × Bytes)
unfolding read_exactly
read_sized frame_size stream = do
  raise_if (ltb rpc_frame_limit frame_size) (gateway_transport_error unavailable)
  (body, rest) ← read_exactly frame_size stream
  ok (some body, rest)

-- `read_frame`: nothing at the end of a stream, where an end between frames is allowed.
unfoldable pub read_frame : Bool → Bytes → Outcome (Option Bytes × Bytes)
unfolding read_exactly read_sized
read_frame clean_eof stream =
    if clean_eof && length stream == 0
    then ok (none, stream)
    else do (header, rest) ← read_exactly 4 stream; read_sized (from_bytes 0 header) rest

-- The document of a call.
abbrev pub call_document : String → JsonObject → JsonValue
call_document operation payload =
    object (field "operation" (string operation) (field "payload" (object payload) end))

module _ (codec : JsonCodec) where
  -- `encode_call`
  unfoldable pub encode_call : String → JsonObject → Bytes → Outcome Bytes
  encode_call operation payload token = do
    raise_if (length token == 0 || ltb token_limit (length token))
        (gateway_transport_error unavailable)
    let document = codec.canonical_json (call_document operation payload)
    let body = two_bytes (length token) ++ token ++ document
    raise_if (ltb rpc_frame_limit (length body)) (gateway_transport_error unavailable)
    ok body

  -- The checks of `decode_call` on the decoded document.
  abbrev pub call_of : Option String → Option JsonObject → Option (String × JsonObject)
  call_of (some operation) (some payload) =
      if has_characters operation then some (operation, payload) else none
  call_of _ _ = none

  abbrev pub document_call : Option JsonValue → Option (String × JsonObject)
  document_call (some (object o)) =
      if size o == 2 then call_of (get_text "operation" o) (get_object "payload" o) else none
  document_call _ = none

  -- `return operation, payload, token_bytes.decode()`, which raises where the token is no text
  abbrev pub with_text :
      Option (String × JsonObject) → Option String → Outcome (Option (String × JsonObject × String))
  with_text none token = ok none
  with_text (some call) none = raised unicode_decode_error
  with_text (some (operation, payload)) (some token) = ok (some (operation, payload, token))

  -- The part of `decode_call` behind the size of the token.
  unfoldable pub decode_sized : ℕ → Bytes → Bytes → Outcome (Option (String × JsonObject × String))
  unfolding same_bytes
  decode_sized token_size body secret =
      if token_size == 0 || ltb token_limit token_size || leb (length body) (token_size + 2)
      then ok none
      else if not (same_bytes (take token_size (drop 2 body)) secret)
      then ok none
      else with_text (document_call (codec.loads (drop (token_size + 2) body)))
          (codec.decode (take token_size (drop 2 body)))

  -- `decode_call`
  unfoldable pub decode_call : Bytes → Bytes → Outcome (Option (String × JsonObject × String))
  unfolding decode_sized
  decode_call body secret =
      if ltb (length body) 3 then ok none else decode_sized (from_bytes 0 (take 2 body)) body secret

-- `GatewaySuccess` and `GatewayFailure`, with what goes over the wire.
pub data CallResult : Type 0 where
  succeeded : JsonValue → CallResult
  failed : String → String → Option String → CallResult

-- `result_document`
unfoldable pub result_document : CallResult → JsonObject
result_document (succeeded value) = field "ok" (boolean true) (field "result" value end)
result_document (failed code message event_id) = field "ok" (boolean false) (
    field "error"
      (object (
        field "code" (string code)
          (field "message" (string message) (field "event_id" (text_or_null event_id) end))))
      end)

-- The failure that stands for a result that is too large.
abbrev pub response_limit : CallResult
response_limit = failed "GATEWAY_RESPONSE_LIMIT" "gateway response is too large" none

module _ (codec : JsonCodec) where
  -- The bytes that `write_result` writes.
  unfoldable pub write_result : CallResult → Bytes
  unfolding result_document
  write_result result =
      let encoded = codec.canonical_json (object (result_document result)) in
      let sent =
        if ltb rpc_frame_limit (length encoded)
        then codec.canonical_json (object (result_document response_limit))
        else encoded in
      four_bytes (length sent) ++ sent

  abbrev transport_error {ℓ} : {A : Type ℓ} → Outcome A
  transport_error = raised (gateway_transport_error unavailable)

  -- `error.get("event_id")`, a text or `None`
  abbrev failure_of : Option String → Option String → Option JsonValue → Outcome CallResult
  failure_of (some code) (some message) none = ok (failed code message none)
  failure_of (some code) (some message) (some null) = ok (failed code message none)
  failure_of (some code) (some message) (some (string id)) = ok (failed code message (some id))
  failure_of _ _ _ = transport_error

  abbrev error_of : Option JsonObject → Outcome CallResult
  error_of none = transport_error
  error_of (some error) =
      failure_of (get_text "code" error) (get_text "message" error) (get "event_id" error)

  abbrev result_of : JsonObject → Option JsonValue → Option JsonValue → Outcome CallResult
  result_of o (some (boolean true)) (some value) =
      if size o == 2 then ok (succeeded value) else transport_error
  result_of o (some (boolean false)) none =
      if size o == 2 then error_of (get_object "error" o) else transport_error
  result_of o _ _ = transport_error

  abbrev pub decoded_result : Option JsonValue → Outcome CallResult
  decoded_result (some (object o)) = result_of o (get "ok" o) (get "result" o)
  decoded_result _ = transport_error

  -- `decode_result`
  unfoldable pub decode_result : Bytes → Outcome CallResult
  decode_result body = decoded_result (codec.loads body)
