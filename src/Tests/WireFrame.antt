-- ===== src/Tests/WireFrame.antt =====
-- src/wire_frame.c.
use zmk_feature_split_esb.Prelude.{ℕ, ◌+◌, ◌%◌, ◌≡◌, some, true, List, [], ◌∷◌, ◌++◌, arith}
use zmk_feature_split_esb.WireFrame.{FrameParser, max_frame, parser_ingest}
use zmk_feature_split_esb.WireFrame.Frames.{idle}
use zmk_feature_split_esb.WireFrame.Stream.{send_frames, parser_ingest-send_frames}

-- A check value that depends on every byte.
abbrev pub checksum : List ℕ → ℕ
checksum [] = 0
checksum (b ∷ bytes) = (b + checksum bytes) % 256

-- Two payloads, one with zeros, behind the rest of a frame that was lost.
abbrev payloads : List (List ℕ)
payloads = (1 ∷ 0 ∷ 0 ∷ 2 ∷ []) ∷ (7 ∷ []) ∷ []

abbrev noise : List ℕ
noise = 9 ∷ 200 ∷ []

abbrev parser : FrameParser
parser = record { accumulator = 3 ∷ []; discarding = true }

parser_ingest-send_frames_example :
    (stream : List ℕ) × (send_frames checksum max_frame payloads ≡ some stream)
    × (parser_ingest checksum ((noise ++ (0 ∷ [])) ++ stream) parser
        ≡ ((parser_ingest checksum (noise ++ (0 ∷ [])) parser).0 ++ payloads, idle))
parser_ingest-send_frames_example =
    parser_ingest-send_frames checksum payloads max_frame noise parser
      (omega arith, (omega arith, tt)) (omega arith)
