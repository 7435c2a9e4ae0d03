-- ===== src/WireFrame/Frames.antt =====
-- An encoded frame of src/wire_frame.c.
use zmk_feature_split_esb.Prelude.{
  ℕ, zero, suc, ◌+◌, ◌≤◌, ◌<◌, ◌≡◌, ◌≢◌, refl, sym, ap, ◌∙◌, false, Option, none, some, List, [],
  ◌∷◌, ◌++◌, length, get_or, length-append, All, arith,
}
use zmk_feature_split_esb.Cobs.{max_encoded, cobs_encode, cobs_encode-IsStuffed}
use zmk_feature_split_esb.Cobs.Decode.{cobs_decode_in_place}
use zmk_feature_split_esb.Cobs.RoundTrip.{cobs_decode_in_place-cobs_encode}
use zmk_feature_split_esb.WireFrame.{max_payload, max_frame, FrameParser}

abbrev pub idle : FrameParser
idle = record { accumulator = []; discarding = false }

abbrev pub Nonzero : ℕ → Type 0
Nonzero b = b ≢ 0

pub All-Nonzero : (xs : List ℕ) → ((i : ℕ) → i < length xs → get_or xs i 0 ≢ 0) → All Nonzero xs
All-Nonzero [] h = tt
All-Nonzero (x ∷ xs) h = (h 0 (omega arith), All-Nonzero xs (λ i l. h (suc i) (omega arith)))

pub get_or-append_low :
    (xs ys : List ℕ) (i : ℕ) → i < length xs → get_or (xs ++ ys) i 0 ≡ get_or xs i 0
get_or-append_low [] ys i h = absurd (omega arith)
get_or-append_low (x ∷ xs) ys zero h = refl
get_or-append_low (x ∷ xs) ys (suc i) h = get_or-append_low xs ys i (omega arith)

abbrev or_nil : Option (List ℕ) → List ℕ
or_nil none = []
or_nil (some xs) = xs

-- Any capacity that is enough gives the same bytes.
pub same_encoding :
    (input : List ℕ) (a b : ℕ)
    → max_encoded (length input) ≤ a
    → max_encoded (length input) ≤ b
    → cobs_encode input a ≡ cobs_encode input b
unfolding cobs_encode
same_encoding input a b h k = ground arith

-- An encoded frame: bytes other than 0, no more than the parser holds, and the delimiter.
pub encoded_frame :
    (input : List ℕ) (output_capacity : ℕ)
    → max_encoded (length input) ≤ output_capacity
    → length input ≤ max_payload + 1
    → (body : List ℕ) × (rest : List ℕ) × (cobs_encode input output_capacity
        ≡ some (body ++ (0 ∷ [])))
      × (cobs_decode_in_place body ≡ some (input ++ rest, length input))
      × All Nonzero body
      × (length body < max_frame)
encoded_frame input output_capacity room small =
    let (body, rest, e, d) = cobs_decode_in_place-cobs_encode input output_capacity room in
    let (output, n, e', size, l, s) =
      cobs_encode-IsStuffed input (max_encoded (length input)) (omega arith) in
    let same =
      same_encoding input output_capacity (max_encoded (length input)) room (omega arith) in
    let shape : output ≡ body ++ (0 ∷ []) = ap or_nil (sym e' ∙ sym same ∙ e) in
    let long : length output ≡ length body + 1 =
      ap length shape ∙ omega (arith, length-append body (0 ∷ [])) in
    let clean : (i : ℕ) → i < length body → get_or body i 0 ≢ 0 = λ i k z.
      s.stuffed i (omega (arith, long)) (omega (arith, long, size))
        (ap (λ t. get_or t i 0) shape ∙ get_or-append_low body (0 ∷ []) i k ∙ z) in
    (body, rest, e, d, All-Nonzero body clean, omega (arith, long, l, small))
