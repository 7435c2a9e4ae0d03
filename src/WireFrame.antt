-- ===== src/WireFrame.antt =====
-- src/wire_frame.c: the frames of the wired link, stuffed bytes behind a check value. The check value
-- `crc8_ccitt` with its seed 0 is Zephyr's, a parameter. The parser calls back with a payload; the
-- payloads stand in a list, in the order of the calls.
pub mod Frames
pub mod Stream
use zmk_feature_split_esb.Prelude.{
  ℕ, ◌+◌, ◌-◌, Bool, true, false, ◌&&◌, not, ltb, leb, ◌==◌, if◌then◌else◌, Option, none, some,
  List, [], ◌∷◌, ◌++◌, length, get_or, take,
}
use zmk_feature_split_esb.Cobs.{max_encoded, cobs_encode}
use zmk_feature_split_esb.Cobs.Decode.{cobs_decode_in_place}

-- WIRE_FRAME_MAX_PAYLOAD
abbrev pub max_payload : ℕ
max_payload = 128

-- WIRE_FRAME_MAX_ENCODED
abbrev pub max_frame : ℕ
max_frame = max_encoded (max_payload + 1)

-- The errors are -EMSGSIZE and -ENOMEM. A list is never NULL.
pub data Encoded : Type 0 where
  encoded : List ℕ → Encoded
  message_too_long no_memory : Encoded

pub record FrameParser : Type 0 where
  pub accumulator : List ℕ
  pub discarding : Bool

abbrev or_no_memory : Option (List ℕ) → Encoded
or_no_memory none = no_memory
or_no_memory (some output) = encoded output

module _ (crc8 : List ℕ → ℕ) where
  unfoldable pub wire_frame_encode : List ℕ → ℕ → Encoded
  wire_frame_encode payload output_capacity =
      if ltb max_payload (length payload)
      then message_too_long
      else or_no_memory (cobs_encode (payload ++ (crc8 payload ∷ [])) output_capacity)

  -- `deliver_frame` after the decoder.
  unfoldable pub check_frame : Option (List ℕ × ℕ) → List (List ℕ)
  check_frame none = []
  check_frame (some (decoded, decoded_length)) =
      let payload = take (decoded_length - 1) decoded in
      if ltb decoded_length 1
      then []
      else if get_or decoded (decoded_length - 1) 0 == crc8 payload
      then payload ∷ []
      else []

  unfoldable pub ingest_byte : ℕ → FrameParser → List (List ℕ) × FrameParser
  unfolding check_frame
  ingest_byte byte parser =
      if byte == 0
      then (
        if not parser.discarding && ltb 0 (length parser.accumulator)
            then check_frame (cobs_decode_in_place parser.accumulator)
            else [],
        record { accumulator = []; discarding = false },
      )
      else if parser.discarding
      then ([], parser)
      else if leb max_frame (length parser.accumulator)
      then ([], record { accumulator = []; discarding = true })
      else ([], record parser { accumulator = parser.accumulator ++ (byte ∷ []) })

  unfoldable pub parser_ingest : List ℕ → FrameParser → List (List ℕ) × FrameParser
  unfolding ingest_byte
  parser_ingest [] parser = ([], parser)
  parser_ingest (byte ∷ bytes) parser =
      let (payloads, next) = ingest_byte byte parser in
      let (later, last) = parser_ingest bytes next in (payloads ++ later, last)
