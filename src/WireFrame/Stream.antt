-- ===== src/WireFrame/Stream.antt =====
-- A stream of frames of src/wire_frame.c and what its parser makes of it.
use zmk_feature_split_esb.Prelude.{
  ℕ, ◌+◌, ◌-◌, ◌≤◌, ◌<◌, ◌≡◌, refl, sym, ap, ◌∙◌, true, false, ltb, leb, ◌==◌, Option, none, some,
  List, [], ◌∷◌, ◌++◌, length, get_or, take-append, get_or-append, length-append, All, arith,
}
use mathlib.Core.List.{append_assoc, append-nil}
use zmk_feature_split_esb.Cobs.{max_encoded}
use zmk_feature_split_esb.Cobs.Decode.{cobs_decode_in_place}
use zmk_feature_split_esb.WireFrame.{
  max_payload, max_frame, Encoded, encoded, FrameParser, wire_frame_encode, check_frame,
  ingest_byte, parser_ingest,
}
use zmk_feature_split_esb.WireFrame.Frames.{idle, Nonzero, encoded_frame}

module _ (crc8 : List ℕ → ℕ) where
  pub parser_ingest-append :
      (xs ys : List ℕ) (p : FrameParser)
      → parser_ingest crc8 (xs ++ ys) p ≡ (
        (parser_ingest crc8 xs p).0 ++ (parser_ingest crc8 ys (parser_ingest crc8 xs p).1).0,
        (parser_ingest crc8 ys (parser_ingest crc8 xs p).1).1,
      )
  unfolding parser_ingest
  parser_ingest-append [] ys p = refl
  parser_ingest-append (x ∷ xs) ys p =
      let out = (ingest_byte crc8 x p).0 in
      let q = (ingest_byte crc8 x p).1 in
      let after = parser_ingest crc8 ys (parser_ingest crc8 xs q).1 in
      ap {B = List (List ℕ) × FrameParser} (λ (r : List (List ℕ) × FrameParser). (out ++ r.0, r.1))
        (parser_ingest-append xs ys q)
      ∙ ap {B = List (List ℕ) × FrameParser} (λ t. (t, after.1))
          (sym (append_assoc out (parser_ingest crc8 xs q).0 after.0))

  -- The delimiter leaves the parser idle, whatever it was doing.
  ingest_byte-delimiter : (p : FrameParser) → (ingest_byte crc8 0 p).1 ≡ idle
  unfolding ingest_byte
  ingest_byte-delimiter p = refl

  -- Bytes other than the delimiter pile up while there is room.
  ingest_body :
      (body acc : List ℕ)
      → All Nonzero body
      → length acc + length body ≤ max_frame
      → parser_ingest crc8 body (record { accumulator = acc; discarding = false })
        ≡ ([], record { accumulator = acc ++ body; discarding = false })
  unfolding parser_ingest ingest_byte
  ingest_body [] acc clean h = rw (append-nil acc) refl
  ingest_body (b ∷ bs) acc (n, clean) h =
      let f : (b == 0) ≡ false = ground arith in
      let room : leb max_frame (length acc) ≡ false = ground arith in
      let ih = ingest_body bs (acc ++ (b ∷ [])) clean (omega (arith, length-append acc (b ∷ []))) in
      rw (f, room) (rw (append_assoc acc (b ∷ []) bs) at ih)

  check_frame_lem :
      (payload rest : List ℕ)
      → check_frame crc8
          (some ((payload ++ (crc8 payload ∷ [])) ++ rest, length (payload ++ (crc8 payload ∷ []))))
        ≡ payload ∷ []
  unfolding check_frame
  check_frame_lem payload rest =
      let size : length (payload ++ (crc8 payload ∷ [])) ≡ length payload + 1 =
        omega (arith, length-append payload (crc8 payload ∷ [])) in
      let less : length payload + 1 - 1 ≡ length payload = omega arith in
      let shape : (payload ++ (crc8 payload ∷ [])) ++ rest ≡ payload ++ (crc8 payload ∷ rest) =
        append_assoc payload (crc8 payload ∷ []) rest in
      let some_byte : ltb (length payload + 1) 1 ≡ false = ground arith in
      let front = take-append payload (crc8 payload ∷ rest) in
      let z : length payload + 0 ≡ length payload = omega arith in
      let last : get_or (payload ++ (crc8 payload ∷ rest)) (length payload) 0 ≡ crc8 payload =
        rw (← z) (get_or-append payload (crc8 payload ∷ rest) 0 0) in
      let same : (crc8 payload == crc8 payload) ≡ true = ground arith in
      rw (size, less, shape, some_byte, front, last, same) refl

  -- A whole body and its delimiter are checked and leave the parser idle.
  delimited_lem :
      (body tail : List ℕ)
      → 0 < length body
      → parser_ingest crc8 (0 ∷ tail) (record { accumulator = body; discarding = false }) ≡ (
        check_frame crc8 (cobs_decode_in_place body) ++ (parser_ingest crc8 tail idle).0,
        (parser_ingest crc8 tail idle).1,
      )
  unfolding parser_ingest ingest_byte
  delimited_lem body tail h = let t : ltb 0 (length body) ≡ true = ground arith in rw (t) refl

  body_delivered :
      (body tail payload rest : List ℕ)
      → All Nonzero body
      → length body < max_frame
      → cobs_decode_in_place body
        ≡ some ((payload ++ (crc8 payload ∷ [])) ++ rest, length (payload ++ (crc8 payload ∷ [])))
      → parser_ingest crc8 ((body ++ (0 ∷ [])) ++ tail) idle
        ≡ (payload ∷ (parser_ingest crc8 tail idle).0, (parser_ingest crc8 tail idle).1)
  unfolding cobs_decode_in_place
  body_delivered [] tail payload rest clean short d = absurd (cc)
  body_delivered (b ∷ bs) tail payload rest clean short d =
      let body = b ∷ bs in
      let piled = ingest_body body [] clean (omega (arith, short)) in
      let whole = parser_ingest-append body (0 ∷ tail) idle in
      let checked = ap (check_frame crc8) d ∙ check_frame_lem payload rest in
      let end = delimited_lem body tail (omega arith) in
      ap (λ t. parser_ingest crc8 t idle) (append_assoc body (0 ∷ []) tail)
      ∙ whole
      ∙ ap {B = List (List ℕ) × FrameParser}
          (λ (r : List (List ℕ) × FrameParser).
            (r.0 ++ (parser_ingest crc8 (0 ∷ tail) r.1).0, (parser_ingest crc8 (0 ∷ tail) r.1).1))
          piled
      ∙ end
      ∙ ap {B = List (List ℕ) × FrameParser}
          (λ t. (t ++ (parser_ingest crc8 tail idle).0, (parser_ingest crc8 tail idle).1)) checked

  -- One frame in front of anything.
  pub frame_delivered :
      (payload : List ℕ) (output_capacity : ℕ)
      → length payload ≤ max_payload
      → max_encoded (length payload + 1) ≤ output_capacity
      → (bytes : List ℕ) × (wire_frame_encode crc8 payload output_capacity ≡ encoded bytes)
        × ((tail : List ℕ)
            → parser_ingest crc8 (bytes ++ tail) idle
              ≡ (payload ∷ (parser_ingest crc8 tail idle).0, (parser_ingest crc8 tail idle).1))
  unfolding wire_frame_encode
  frame_delivered payload output_capacity small room =
      let plain = payload ++ (crc8 payload ∷ []) in
      let size : length plain ≡ length payload + 1 =
        omega (arith, length-append payload (crc8 payload ∷ [])) in
      let (body, rest, e, d, clean, short) =
        encoded_frame plain output_capacity (rw (size) room) (omega (arith, size)) in
      let fits : ltb max_payload (length payload) ≡ false = ground arith in
      (
        body ++ (0 ∷ []),
        rw (fits, e) refl,
        λ tail. body_delivered body tail payload rest clean short d,
      )

  abbrev joined : Encoded → Option (List ℕ) → Option (List ℕ)
  joined (encoded bytes) (some rest) = some (bytes ++ rest)
  joined e rest = none

  -- The bytes of the frames sent one after the other, if each is encoded.
  unfoldable pub send_frames : ℕ → List (List ℕ) → Option (List ℕ)
  send_frames output_capacity [] = some []
  send_frames output_capacity (p ∷ ps) =
      joined (wire_frame_encode crc8 p output_capacity) (send_frames output_capacity ps)

  stream_delivered :
      (payloads : List (List ℕ)) (output_capacity : ℕ)
      → All (λ p. length p ≤ max_payload) payloads
      → max_frame ≤ output_capacity
      → (stream : List ℕ) × (send_frames output_capacity payloads ≡ some stream)
        × (parser_ingest crc8 stream idle ≡ (payloads, idle))
  unfolding send_frames parser_ingest
  stream_delivered [] output_capacity small room = ([], refl, refl)
  stream_delivered (p ∷ ps) output_capacity (h, small) room =
      let (stream, e, d) = stream_delivered ps output_capacity small room in
      let (bytes, e', d') = frame_delivered p output_capacity h (omega arith) in
      (
        bytes ++ stream,
        rw (e', e) refl,
        d' stream
            ∙ ap {B = List (List ℕ) × FrameParser}
                (λ (r : List (List ℕ) × FrameParser). (p ∷ r.0, r.1)) d,
      )

  -- Whatever state the parser is in and whatever noise it hears, from the next delimiter on it
  -- delivers a stream of frames whole: each payload as it was sent, in order, and nothing else, and
  -- it ends idle. The payloads are of the permitted length and the sender's buffer has room for any
  -- frame; the check value may be any function of the bytes.
  pub parser_ingest-send_frames :
      (payloads : List (List ℕ)) (output_capacity : ℕ) (noise : List ℕ) (parser : FrameParser)
      → All (λ p. length p ≤ max_payload) payloads
      → max_frame ≤ output_capacity
      → (stream : List ℕ) × (send_frames output_capacity payloads ≡ some stream)
        × (parser_ingest crc8 ((noise ++ (0 ∷ [])) ++ stream) parser
            ≡ ((parser_ingest crc8 (noise ++ (0 ∷ [])) parser).0 ++ payloads, idle))
  unfolding parser_ingest
  parser_ingest-send_frames payloads output_capacity noise parser small room =
      let (stream, e, d) = stream_delivered payloads output_capacity small room in
      let before = parser_ingest crc8 (noise ++ (0 ∷ [])) parser in
      let quiet : before.1 ≡ idle =
        ap {B = FrameParser} (λ (r : List (List ℕ) × FrameParser). r.1)
          (parser_ingest-append noise (0 ∷ []) parser) in
      (
        stream,
        e,
        parser_ingest-append (noise ++ (0 ∷ [])) stream parser
            ∙ ap {B = List (List ℕ) × FrameParser}
                (λ (q : FrameParser).
                  (before.0 ++ (parser_ingest crc8 stream q).0, (parser_ingest crc8 stream q).1))
                quiet
            ∙ ap {B = List (List ℕ) × FrameParser}
                (λ (r : List (List ℕ) × FrameParser). (before.0 ++ r.0, r.1)) d,
      )
