-- ===== src/Frames/Streams.antt =====
-- Frames in a stream: what is written is read, and the rest of the stream is left.
use aizim.Prelude.{
  ℕ, suc, ◌≡◌, refl, ap, ◌∙◌, Bool, true, false, ◌&&◌, none, some, ◌++◌, length, length-append,
  take, drop, take-append, drop-append, leb, ltb, ◌==◌, if◌then◌else◌, arith,
}
use aizim.Outcome.{
  ok, raised, raise_if, gateway_transport_error, incomplete_read_error, ◌>>=◌, ◌>>◌,
}
use aizim.Json.{object, get, get_text, get_object, size}
use aizim.Frames.{
  Bytes, JsonCodec, ReadsBack, four_bytes, from_bytes, rpc_frame_limit, read_exactly, read_frame,
  CallResult, succeeded, failed, result_document, response_limit, write_result, decode_result,
  decoded_result, unavailable, read_sized,
}

four_bytes-number : (n : ℕ) → leb n rpc_frame_limit ≡ true → from_bytes 0 (four_bytes n) ≡ n
four_bytes-number n h = ground arith

read_exactly-append : (xs ys : Bytes) → read_exactly (length xs) (xs ++ ys) ≡ ok (xs, ys)
unfolding read_exactly
read_exactly-append xs ys =
    ap
      (λ b.
        if b
        then ok (take (length xs) (xs ++ ys), drop (length xs) (xs ++ ys))
        else raised incomplete_read_error)
      (enough xs ys)
    ∙ ap (λ l. ok (l, drop (length xs) (xs ++ ys))) (take-append xs ys)
    ∙ ap (λ l. ok (xs, l)) (drop-append xs ys)
  where
    enough : (xs ys : Bytes) → leb (length xs) (length (xs ++ ys)) ≡ true
    enough xs ys = ground (arith, length-append xs ys)

read_sized-append :
    (body rest : Bytes)
    → leb (length body) rpc_frame_limit ≡ true
    → read_sized (length body) (body ++ rest) ≡ ok (some body, rest)
unfolding read_sized
read_sized-append body rest h =
    let after = read_exactly (length body) (body ++ rest) in
    ap
      (λ b.
        raise_if b (gateway_transport_error unavailable)
        >> (after >>= λ (x : Bytes × Bytes). ok (some x.0, x.1)))
      (small (length body) h)
    ∙ ap (λ o. o >>= λ (x : Bytes × Bytes). ok (some x.0, x.1)) (read_exactly-append body rest)
  where
    small : (n : ℕ) → leb n rpc_frame_limit ≡ true → ltb rpc_frame_limit n ≡ false
    small n h = ground arith

-- A frame that is written into a stream, of a size within the limit, is read from it whole, and the
-- rest of the stream is left for the next reading.
pub read_frame-append :
    (clean_eof : Bool) (body rest : Bytes)
    → leb (length body) rpc_frame_limit ≡ true
    → read_frame clean_eof (four_bytes (length body) ++ body ++ rest) ≡ ok (some body, rest)
unfolding read_frame read_exactly
read_frame-append clean_eof body rest h =
    let header = four_bytes (length body) in
    let stream = header ++ body ++ rest in
    ap
      (λ b.
        if b
        then ok (none, stream)
        else read_exactly 4 stream >>= λ (x : Bytes × Bytes). read_sized (from_bytes 0 x.0) x.1)
      (not_over clean_eof (length (body ++ rest)))
    ∙ ap (λ o. o >>= λ (x : Bytes × Bytes). read_sized (from_bytes 0 x.0) x.1)
        (read_exactly-append header (body ++ rest))
    ∙ ap (λ n. read_sized n (body ++ rest)) (four_bytes-number (length body) h)
    ∙ read_sized-append body rest h
  where
    not_over : (b : Bool) (n : ℕ) → (b && suc (suc (suc (suc n))) == 0) ≡ false
    not_over true n = ground arith
    not_over false n = refl

decode_result-document :
    (codec : JsonCodec) (r : CallResult)
    → ReadsBack codec (object (result_document r))
    → decode_result codec (codec.canonical_json (object (result_document r))) ≡ ok r
unfolding decode_result result_document get get_text get_object size
decode_result-document codec (succeeded v) back = ap (decoded_result codec) back.decoded
decode_result-document codec (failed code message none) back =
    ap (decoded_result codec) back.decoded
decode_result-document codec (failed code message (some id)) back =
    ap (decoded_result codec) back.decoded

delivered-ReadsBack :
    (codec : JsonCodec) (b : Bool) (x y : CallResult)
    → ReadsBack codec (object (result_document x))
    → ReadsBack codec (object (result_document y))
    → ReadsBack codec (object (result_document (if b then x else y)))
delivered-ReadsBack codec true x y p q = p
delivered-ReadsBack codec false x y p q = q

-- The bytes of a result.
abbrev encoded : JsonCodec → CallResult → Bytes
encoded codec r = codec.canonical_json (object (result_document r))

-- What the worker makes of an answer: the result that was written, or, where that is larger than a
-- frame may be, the failure that says so.
abbrev pub delivered : JsonCodec → CallResult → CallResult
delivered codec r =
    if ltb rpc_frame_limit (length (codec.canonical_json (object (result_document r))))
    then response_limit
    else r

sent :
    (codec : JsonCodec) (b : Bool) (x y : CallResult)
    → (if b then encoded codec x else encoded codec y) ≡ encoded codec (if b then x else y)
sent codec true x y = refl
sent codec false x y = refl

delivered-fits :
    (codec : JsonCodec) (b : Bool) (x y : CallResult)
    → ltb rpc_frame_limit (length (encoded codec y)) ≡ b
    → leb (length (encoded codec x)) rpc_frame_limit ≡ true
    → leb (length (encoded codec (if b then x else y))) rpc_frame_limit ≡ true
delivered-fits codec true x y over fits = fits
delivered-fits codec false x y over fits = small (length (encoded codec y)) over
  where
    small : (n : ℕ) → ltb rpc_frame_limit n ≡ false → leb n rpc_frame_limit ≡ true
    small n h = ground arith

-- Every result of a call reaches the worker: the frame that is written is read whole, whatever the
-- result's size, and is decoded to the result, or to the failure of the response's limit where the
-- result is too large for a frame. Both documents have to be read back from their texts, and the text
-- of that failure has to fit into a frame.
pub write_result-read :
    (codec : JsonCodec) (clean_eof : Bool) (r : CallResult) (rest : Bytes)
    → ReadsBack codec (object (result_document r))
    → ReadsBack codec (object (result_document response_limit))
    → leb (length (codec.canonical_json (object (result_document response_limit)))) rpc_frame_limit
      ≡ true
    → (body : Bytes) × (read_frame clean_eof (write_result codec r ++ rest) ≡ ok (some body, rest))
      × (decode_result codec body ≡ ok (delivered codec r))
unfolding write_result
write_result-read codec clean_eof r rest back limit_back fits =
    let over = ltb rpc_frame_limit (length (encoded codec r)) in
    (
      encoded codec (delivered codec r),
      ap (λ s. read_frame clean_eof (four_bytes (length s) ++ s ++ rest))
            (sent codec over response_limit r)
          ∙ read_frame-append clean_eof (encoded codec (delivered codec r)) rest
              (delivered-fits codec over response_limit r refl fits),
      decode_result-document codec (delivered codec r)
          (delivered-ReadsBack codec over response_limit r limit_back back),
    )
