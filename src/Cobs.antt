-- ===== src/Cobs.antt =====
-- src/cobs.c: byte stuffing for the wire. The buffer is the list of the bytes written so far, so that
-- `output_index` is its length; a reserved code byte stands as 0 until it is written.
pub mod Decode
pub mod Blocks
pub mod RoundTrip
use zmk_feature_split_esb.Prelude.{
  ℕ, zero, suc, ◌+◌, ◌-◌, ◌/◌, ◌≤◌, ◌<◌, ◌≡◌, ◌≢◌, refl, true, false, ltb, ◌==◌, if◌then◌else◌,
  Option, none, some, List, [], ◌∷◌, ◌++◌, length, get_or, set, length-append, length-set,
  get_or-set, arith, Bool-cases, inl, inr, ℕ_discrete,
}

-- COBS_MAX_ENCODED
abbrev pub max_encoded : ℕ → ℕ
max_encoded n = n + n / 254 + 2

-- The code of the open block is written and a byte is appended: the next block's code, or the
-- delimiter.
unfoldable pub close_block : List ℕ → ℕ → ℕ → List ℕ
close_block output code_position code = set output code_position code ++ (0 ∷ [])

unfoldable pub encode_from : List ℕ → List ℕ → ℕ → ℕ → List ℕ
unfolding close_block
encode_from [] output code_position code = close_block output code_position code
encode_from (b ∷ bs) output code_position code =
    let longer = output ++ (b ∷ []) in
    let on_zero = encode_from bs (close_block output code_position code) (length output) 1 in
    let on_full = encode_from bs (close_block longer code_position (code + 1)) (length longer) 1 in
    let on_byte = encode_from bs longer code_position (code + 1) in
    if b == 0 then on_zero else if code + 1 == 0xFF then on_full else on_byte

-- `none` is -ENOMEM.
unfoldable pub cobs_encode : List ℕ → ℕ → Option (List ℕ)
unfolding encode_from
cobs_encode input output_capacity =
    if ltb output_capacity (max_encoded (length input))
    then none
    else some (encode_from input (0 ∷ []) 0 1)

-- The byte at `open_at` is 0 and no other is.
pub record IsStuffed (output : List ℕ) (open_at : ℕ) : Type 0 where
  pub there : open_at < length output
  pub reserved : get_or output open_at 0 ≡ 0
  pub stuffed : (i : ℕ) → i < length output → i ≢ open_at → get_or output i 0 ≢ 0

get_or-snoc :
    (xs : List ℕ) (v i : ℕ)
    → get_or (xs ++ (v ∷ [])) i 0
      ≡ (if ltb i (length xs) then get_or xs i 0 else if i == length xs then v else 0)
get_or-snoc [] v zero = ground arith
get_or-snoc [] v (suc i) = ground arith
get_or-snoc (x ∷ xs) v zero = ground arith
get_or-snoc (x ∷ xs) v (suc i) = ground (arith, get_or-snoc xs v i)

length-close_block :
    (output : List ℕ) (p code : ℕ) → length (close_block output p code) ≡ length output + 1
unfolding close_block
length-close_block output p code =
    omega (arith, length-append (set output p code) (0 ∷ []), length-set output p code)

close_block-IsStuffed :
    (output : List ℕ) (p code : ℕ)
    → 0 < code
    → IsStuffed output p
    → IsStuffed (close_block output p code) (length output)
unfolding close_block
close_block-IsStuffed output p code h s = record {
  there = omega (arith, length-close_block output p code);
  reserved =
      ground (arith, length-set output p code, get_or-snoc (set output p code) 0 (length output));
  stuffed = λ i l n e. ground (
    arith,
    length-close_block output p code,
    length-set output p code,
    get_or-snoc (set output p code) 0 i,
    get_or-set output p i code 0 s.there,
    s.stuffed i,
  );
}

append-IsStuffed :
    (output : List ℕ) (p b : ℕ) → b ≢ 0 → IsStuffed output p → IsStuffed (output ++ (b ∷ [])) p
append-IsStuffed output p b h s = record {
  there = omega (arith, length-append output (b ∷ []), s.there);
  reserved = ground (arith, get_or-snoc output b p, s.there, s.reserved);
  stuffed =
      λ i l n e. ground (arith, length-append output (b ∷ []), get_or-snoc output b i, s.stuffed i);
}

encode_from-length :
    (bs output : List ℕ) (p code : ℕ)
    → 0 < code
    → code < 0xFF
    → length (encode_from bs output p code)
      ≤ length output + length bs + (code - 1 + length bs) / 254 + 1
unfolding encode_from
encode_from-length [] output p code h k = omega (arith, length-close_block output p code)
encode_from-length (b ∷ bs) output p code h k = ground (
  arith,
  length-append output (b ∷ []),
  length-close_block output p code,
  length-close_block (output ++ (b ∷ [])) p (code + 1),
  encode_from-length bs (close_block output p code) (length output) 1,
  encode_from-length bs (close_block (output ++ (b ∷ [])) p (code + 1))
      (length (output ++ (b ∷ []))) 1,
  encode_from-length bs (output ++ (b ∷ [])) p (code + 1),
)

-- The run from any open block ends stuffed, with the delimiter at its end.
encode_from-IsStuffed :
    (bs output : List ℕ) (p code : ℕ)
    → 0 < code
    → IsStuffed output p
    → (n : ℕ) × (length (encode_from bs output p code) ≡ n + 1)
      × IsStuffed (encode_from bs output p code) n
unfolding encode_from
encode_from-IsStuffed [] output p code h s =
    (length output, length-close_block output p code, close_block-IsStuffed output p code h s)
encode_from-IsStuffed (b ∷ bs) output p code h s = elim (ℕ_discrete b 0) [
  | yes e ↦
      let t : (b == 0) ≡ true = ground arith in
      rw (t)
        (encode_from-IsStuffed bs _ _ 1 (omega arith) (close_block-IsStuffed output p code h s))
  | no n ↦
      let f : (b == 0) ≡ false = ground arith in
      let longer = append-IsStuffed output p b n s in
      elim (Bool-cases (code + 1 == 0xFF)) [
        | inl full ↦
            rw (f, full)
              (encode_from-IsStuffed bs _ _ 1 (omega arith)
                (close_block-IsStuffed (output ++ (b ∷ [])) p (code + 1) (omega arith) longer))
        | inr more ↦ rw (f, more) (encode_from-IsStuffed bs _ p (code + 1) (omega arith) longer)
      ]
]

-- A frame is encoded wherever the source's capacity test lets it, in no more bytes than the test
-- asks for; its last byte is the delimiter 0 and no other byte is 0.
pub cobs_encode-IsStuffed :
    (input : List ℕ) (output_capacity : ℕ)
    → max_encoded (length input) ≤ output_capacity
    → (output : List ℕ) × (n : ℕ) × (cobs_encode input output_capacity ≡ some output)
      × (length output ≡ n + 1)
      × (length output ≤ output_capacity)
      × IsStuffed output n
unfolding cobs_encode
cobs_encode-IsStuffed input output_capacity room =
    let fits : ltb output_capacity (max_encoded (length input)) ≡ false = ground arith in
    let begun : IsStuffed (0 ∷ []) 0 = record {
      there = omega arith;
      reserved = refl;
      stuffed = λ i l n e. n (omega arith);
    } in
    let (n, size, s) = encode_from-IsStuffed input (0 ∷ []) 0 1 (omega arith) begun in
    rw (fits) (
      encode_from input (0 ∷ []) 0 1,
      n,
      refl,
      size,
      omega (arith, encode_from-length input (0 ∷ []) 0 1 (omega arith) (omega arith)),
      s,
    )
