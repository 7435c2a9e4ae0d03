-- ===== src/Tests/Cobs.antt =====
-- src/cobs.c.
use zmk_feature_split_esb.Prelude.{ℕ, ◌+◌, ◌≤◌, ◌≡◌, some, List, [], ◌∷◌, ◌++◌, length, arith}
use zmk_feature_split_esb.Cobs.Decode.{cobs_decode_in_place}
use zmk_feature_split_esb.Cobs.RoundTrip.{cobs_decode_in_place-cobs_encode}
use zmk_feature_split_esb.Cobs.{cobs_encode, IsStuffed, cobs_encode-IsStuffed}

abbrev frame : List ℕ
frame = 17 ∷ 0 ∷ 0 ∷ 34 ∷ []

cobs_encode-IsStuffed_example :
    (output : List ℕ) × (n : ℕ) × (cobs_encode frame 8 ≡ some output)
    × (length output ≡ n + 1)
    × (length output ≤ 8)
    × IsStuffed output n
cobs_encode-IsStuffed_example = cobs_encode-IsStuffed frame 8 (omega arith)

cobs_decode_in_place-cobs_encode_example :
    (body : List ℕ) × (rest : List ℕ) × (cobs_encode frame 8 ≡ some (body ++ (0 ∷ [])))
    × (cobs_decode_in_place body ≡ some (frame ++ rest, 4))
cobs_decode_in_place-cobs_encode_example = cobs_decode_in_place-cobs_encode frame 8 (omega arith)
