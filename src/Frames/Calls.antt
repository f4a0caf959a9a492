-- ===== src/Frames/Calls.antt =====
-- Calls between a worker and the gateway: what is encoded is decoded, and only with the secret.
use mathlib.Core.Path.{subst}
use aizim.Prelude.{
  ◌≢◌, eq_iff, ℕ, suc, ◌+◌, ◌≡◌, refl, sym, ap, ◌∙◌, Bool, true, false, ◌||◌, not, Option, none,
  some, [], ◌∷◌, ◌++◌, String, length, length-append, take, drop, take-append, drop-append, leb,
  ltb, ◌==◌, if◌then◌else◌, arith,
}
use aizim.Outcome.{Outcome, Failure, ok, raise_if, bind-ok_inv}
use aizim.Json.{JsonValue, JsonObject, object, get, get_text, get_object, size}
use aizim.Documents.{has_characters}
use aizim.Frames.{
  Bytes, JsonCodec, ReadsBack, call_document, two_bytes, from_bytes, same_bytes, rpc_frame_limit,
  token_limit, encode_call, call_of, document_call, with_text, decode_sized, decode_call,
}

raise_if-inv : (b : Bool) (e : Failure) (u : Unit {0}) → raise_if b e ≡ ok u → b ≡ false
raise_if-inv true e u h = ground arith
raise_if-inv false e u h = refl

ok-injective : {A : Type 0} {a b : A} → ok a ≡ ok b → a ≡ b
ok-injective h = ground arith

pub same_bytes_refl : (x : Bytes) → same_bytes x x ≡ true
unfolding same_bytes
same_bytes_refl [] = refl
same_bytes_refl (a ∷ x) = ground (arith, same_bytes_refl x)

same_bytes-eq : (x y : Bytes) → same_bytes x y ≡ true → x ≡ y
unfolding same_bytes
same_bytes-eq [] [] h = refl
same_bytes-eq [] (b ∷ y) h = ground arith
same_bytes-eq (a ∷ x) [] h = ground arith
same_bytes-eq (a ∷ x) (b ∷ y) h = ground (arith, same_bytes-eq x y)

two_bytes-number : (n : ℕ) → from_bytes 0 (two_bytes n) ≡ n
two_bytes-number n = omega arith

two_more : (n : ℕ) → n + 2 ≡ suc (suc n)
two_more n = omega arith

not_short :
    (token document : Bytes)
    → (length token == 0 || ltb token_limit (length token)) ≡ false
    → leb 1 (length document) ≡ true
    → ltb (length (two_bytes (length token) ++ token ++ document)) 3 ≡ false
not_short token document fits nonempty = ground (arith, length-append token document)

passes :
    {A : Type 0} (a b : Bool) (x r : A)
    → a ≡ false
    → b ≡ true
    → (if a then x else if not b then x else r) ≡ r
passes false true x r p q = refl
passes true b x r p q = ground arith
passes false false x r p q = ground arith

document_call-ok :
    (codec : JsonCodec) (operation : String) (payload : JsonObject)
    → has_characters operation ≡ true
    → document_call codec (some (call_document operation payload)) ≡ some (operation, payload)
unfolding get_text get_object get size
document_call-ok codec operation payload h =
    ap (λ b. if b then some (operation, payload) else none) h

module _ (codec : JsonCodec) where
  decode_sized-ok :
      (operation text : String) (payload : JsonObject) (token document : Bytes)
      → has_characters operation ≡ true
      → (length token == 0 || ltb token_limit (length token)) ≡ false
      → leb 1 (length document) ≡ true
      → codec.loads document ≡ some (call_document operation payload)
      → codec.decode token ≡ some text
      → decode_sized codec (length token) (two_bytes (length token) ++ token ++ document) token
        ≡ ok (some (operation, payload, text))
  unfolding decode_sized
  decode_sized-ok operation text payload token document named fits nonempty loaded decoded =
      let body = two_bytes (length token) ++ token ++ document in
      let long = length-append token document in
      let rest = ap (λ k. drop k body) (two_more (length token)) ∙ drop-append token document in
      passes
        (length token == 0
          || ltb token_limit (length token)
          || leb (length body) (length token + 2))
        _ (ok none) _ (ground (arith, long))
        (ap (λ t. same_bytes t token) (take-append token document) ∙ same_bytes_refl token)
      ∙ ap
          (λ t.
            with_text codec (document_call codec (codec.loads (drop (length token + 2) body)))
              (codec.decode t))
          (take-append token document)
      ∙ ap
          (λ t.
            with_text codec (document_call codec (codec.loads (drop (length token + 2) body))) t)
          decoded
      ∙ ap (λ v. with_text codec (document_call codec v) (some text)) (ap codec.loads rest ∙ loaded)
      ∙ ap (λ c. with_text codec c (some text)) (document_call-ok codec operation payload named)

-- What the worker encodes is decoded by a gateway that holds the same secret, where the operation has
-- a name, the document of the call is read back from its text, and the token is that of a text.
pub decode_call-encode_call :
    (codec : JsonCodec) (operation text : String) (payload : JsonObject) (token body : Bytes)
    → ReadsBack codec (call_document operation payload)
    → codec.decode token ≡ some text
    → encode_call codec operation payload token ≡ ok body
    → has_characters operation ≡ true
    → decode_call codec body token ≡ ok (some (operation, payload, text))
unfolding encode_call decode_call
decode_call-encode_call codec operation text payload token body back decoded h named =
    let document = codec.canonical_json (call_document operation payload) in
    let made = two_bytes (length token) ++ token ++ document in
    let (u, p, h1) = bind-ok_inv (raise_if _ _) _ body h in
    let (v, q, h2) =
      bind-ok_inv (raise_if (ltb rpc_frame_limit (length made)) _) (λ _. ok made) body h1 in
    let fits = raise_if-inv (length token == 0 || ltb token_limit (length token)) _ u p in
    let nonempty = back.nonempty in
    ap (λ b. decode_call codec b token) (sym (ok-injective h2))
    ∙ ap
        (λ b.
          if b
          then ok none
          else decode_sized codec (from_bytes 0 (two_bytes (length token))) made token)
        (not_short token document fits nonempty)
    ∙ ap (λ n. decode_sized codec n made token) (two_bytes-number (length token))
    ∙ decode_sized-ok codec operation text payload token document named fits nonempty back.decoded
        decoded

passed :
    {A : Type 0} (a b c : Bool) (r : Outcome (Option A)) (x : A)
    → (if a then ok none else if b then ok none else if not c then ok none else r) ≡ ok (some x)
    → (c ≡ true) × (r ≡ ok (some x))
passed true b c r x h = ground arith
passed false true c r x h = ground arith
passed false false false r x h = ground arith
passed false false true r x h = (refl, h)

with_text-inv :
    (codec : JsonCodec) (call : Option (String × JsonObject)) (t : Option String)
    (operation token : String) (payload : JsonObject)
    → with_text codec call t ≡ ok (some (operation, payload, token))
    → (call ≡ some (operation, payload)) × (t ≡ some token)
with_text-inv codec none t operation token payload h = ground arith
with_text-inv codec (some c) none operation token payload h = ground arith
with_text-inv codec (some (a, b)) (some t) operation token payload h = (ground arith, ground arith)

call_of-inv :
    (codec : JsonCodec) (operation : String) (payload : JsonObject) (a : Option String)
    (b : Option JsonObject)
    → call_of codec a b ≡ some (operation, payload)
    → (a ≡ some operation) × (b ≡ some payload) × (operation ≢ "")
call_of-inv codec operation payload none b h = ground arith
call_of-inv codec operation payload (some a) none h = ground arith
call_of-inv codec operation payload (some a) (some b) h = go (has_characters a) refl h
  where
    go :
        (named : Bool)
        → has_characters a ≡ named
        → ◌≡◌ {A = Option (String × JsonObject)}
            (if named then some (a, b) else none)
            (some (operation, payload))
        → (some a ≡ some operation) × (some b ≡ some payload) × (operation ≢ "")
    go true e h =
        let name : a ≡ operation = ground arith in
        (ap some name, ground arith, subst (λ x. x ≢ "") name (λ q. ground (arith, eq_iff a "")))
    go false e h = ground arith

document_call-inv :
    (codec : JsonCodec) (found : Option JsonValue) (operation : String) (payload : JsonObject)
    → document_call codec found ≡ some (operation, payload)
    → (o : JsonObject) × (found ≡ some (object o))
      × (get_text "operation" o ≡ some operation)
      × (get_object "payload" o ≡ some payload)
      × (operation ≢ "")
document_call-inv codec none operation payload h = ground arith
document_call-inv codec (some (object o)) operation payload h = go (size o == 2) h
  where
    go :
        (two : Bool)
        → (if two then call_of codec (get_text "operation" o) (get_object "payload" o) else none)
          ≡ some (operation, payload)
        → (p : JsonObject) × (some (object o) ≡ some (object p))
          × (get_text "operation" p ≡ some operation)
          × (get_object "payload" p ≡ some payload)
          × (operation ≢ "")
    go true h =
        let (name, content, full) =
          call_of-inv codec operation payload (get_text "operation" o) (get_object "payload" o) h in
        (o, refl, name, content, full)
    go false h = ground arith
document_call-inv codec (some _) operation payload h = ground arith

-- A call is decoded only from a body that carries the secret itself, byte for byte, after its size,
-- and then the text of an object that has the operation's name, which is not empty, and the payload;
-- the token is the secret, decoded.
pub decode_call-secret :
    (codec : JsonCodec) (body secret : Bytes) (operation token : String) (payload : JsonObject)
    → decode_call codec body secret ≡ ok (some (operation, payload, token))
    → (take (from_bytes 0 (take 2 body)) (drop 2 body) ≡ secret)
      × ((o : JsonObject) × (codec.loads (drop (from_bytes 0 (take 2 body) + 2) body)
            ≡ some (object o))
          × (get_text "operation" o ≡ some operation)
          × (get_object "payload" o ≡ some payload)
          × (operation ≢ ""))
      × (codec.decode secret ≡ some token)
unfolding decode_call decode_sized
decode_call-secret codec body secret operation token payload h =
    let sent = take (from_bytes 0 (take 2 body)) (drop 2 body) in
    let (same, found) = passed _ _ (same_bytes sent secret) _ (operation, payload, token) h in
    let is_secret = same_bytes-eq sent secret same in
    let (call, text) =
      with_text-inv codec
        (document_call codec (codec.loads (drop (from_bytes 0 (take 2 body) + 2) body)))
        (codec.decode sent) operation token payload found in
    (
      is_secret,
      document_call-inv codec (codec.loads (drop (from_bytes 0 (take 2 body) + 2) body)) operation
          payload call,
      sym (ap codec.decode is_secret) ∙ text,
    )
