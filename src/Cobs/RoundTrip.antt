-- ===== src/Cobs/RoundTrip.antt =====
-- What src/cobs.c encodes it decodes.
use zmk_feature_split_esb.Prelude.{
  ℕ, zero, suc, ◌+◌, ◌-◌, ◌≤◌, ◌<◌, ◌≡◌, refl, sym, ap, ◌∙◌, true, false, ◌&&◌, ltb, ◌==◌,
  if◌then◌else◌, some, List, [], ◌∷◌, ◌++◌, length, get_or, set, length-append, get_or-append,
  arith, Bool-cases, inl, inr,
}
use mathlib.Core.List.{append_assoc, append-nil}
use mathlib.Core.Path.{subst}
use zmk_feature_split_esb.Cobs.{cobs_encode, max_encoded}
use zmk_feature_split_esb.Cobs.Decode.{copy_block, decode_from, cobs_decode_in_place}
use zmk_feature_split_esb.Cobs.Blocks.{
  blocks, snoc_append, set_front, get_front, encode_from-blocks,
}

copy_block_lem :
    (front gap block rest : List ℕ)
    → 0 < length gap
    → (g : List ℕ) × (length g ≡ length gap)
      × (copy_block
            (length block)
            (length front + length gap)
            (length front)
            (front ++ (gap ++ (block ++ rest)))
          ≡ (front ++ block) ++ (g ++ rest))
unfolding copy_block
copy_block_lem front gap [] rest h = (gap, refl, rw (append-nil front) refl)
copy_block_lem front [] (d ∷ ds) rest h = absurd (omega arith)
copy_block_lem front (y ∷ gap) (d ∷ ds) rest h =
    let tail = d ∷ (ds ++ rest) in
    let moved = gap ++ (d ∷ []) in
    let read : get_or (front ++ (y ∷ (gap ++ tail))) (length front + suc (length gap)) 0 ≡ d =
      get_or-append front (y ∷ (gap ++ tail)) (suc (length gap)) 0 ∙ get_front gap (ds ++ rest) d in
    let write = set_front front (gap ++ tail) y d in
    let (g, size, e) =
      copy_block_lem (front ++ (d ∷ [])) moved ds rest
        (omega (arith, length-append gap (d ∷ []))) in
    let from : suc (length front + suc (length gap)) ≡ length (front ++ (d ∷ [])) + length moved =
      omega (arith, length-append front (d ∷ []), length-append gap (d ∷ [])) in
    let to : suc (length front) ≡ length (front ++ (d ∷ [])) =
      omega (arith, length-append front (d ∷ [])) in
    let shape : front ++ (d ∷ (gap ++ tail)) ≡ (front ++ (d ∷ [])) ++ (moved ++ (ds ++ rest)) =
      ap (λ t. front ++ (d ∷ t)) (sym (snoc_append gap d (ds ++ rest)))
      ∙ sym (snoc_append front d (moved ++ (ds ++ rest))) in
    let whole = front ++ (y ∷ (gap ++ tail)) in
    let i = length front + suc (length gap) in
    let placed : set whole (length front) (get_or whole i 0)
        ≡ (front ++ (d ∷ [])) ++ (moved ++ (ds ++ rest)) =
      ap (set whole (length front)) read ∙ write ∙ shape in
    let step : copy_block (length ds) (suc i) (suc (length front))
          (set whole (length front) (get_or whole i 0))
        ≡ copy_block (length ds) (length (front ++ (d ∷ [])) + length moved)
            (length (front ++ (d ∷ []))) ((front ++ (d ∷ [])) ++ (moved ++ (ds ++ rest))) =
      rw (placed, from, to) refl in
    (
      g,
      omega (arith, size, length-append gap (d ∷ [])),
      step ∙ e ∙ ap (λ t. t ++ (g ++ rest)) (snoc_append front d ds),
    )

round_step :
    (b : List ℕ) (i o n fuel : ℕ)
    → get_or b i 0 ≡ suc n
    → suc i + n ≤ length b
    → decode_from (suc fuel) i o b ≡ (
        if ltb (suc n) 0xFF && ltb (suc i + n) (length b)
        then decode_from fuel (suc i + n) (o + n + 1) (set (copy_block n (suc i) o b) (o + n) 0)
        else decode_from fuel (suc i + n) (o + n) (copy_block n (suc i) o b))
unfolding decode_from
round_step b i o n fuel read fits =
    let less : suc n - 1 ≡ n = omega arith in
    let inside : ltb i (length b) ≡ true = ground arith in
    let nonzero : (suc n == 0) ≡ false = ground arith in
    let room : ltb (length b - suc i) n ≡ false = ground arith in
    rw (read, less, inside, nonzero, room)
      (elim (Bool-cases (ltb (suc n) 0xFF && ltb (suc i + n) (length b))) [
        | inl t ↦ rw (t) refl
        | inr t ↦ rw (t) refl
      ])

-- A round of the loop at a block that lies whole in the buffer.
decode_round :
    (front gap block rest : List ℕ) (fuel : ℕ)
    → suc (length block) ≤ 0xFF
    → (g : List ℕ) × (length g ≡ length gap + 1)
      × (decode_from
            (suc fuel)
            (length front + length gap)
            (length front)
            (front ++ (gap ++ ((suc (length block) ∷ block) ++ rest)))
          ≡ (if ltb (suc (length block)) 0xFF && ltb 0 (length rest)
              then decode_from fuel
                  (length (front ++ block) + length g)
                  (length (front ++ block) + 1)
                  (set ((front ++ block) ++ (g ++ rest)) (length (front ++ block)) 0)
              else decode_from fuel
                  (length (front ++ block) + length g)
                  (length (front ++ block))
                  ((front ++ block) ++ (g ++ rest))))
unfolding decode_from
decode_round front gap block rest fuel h =
    let code = suc (length block) in
    let whole = front ++ (gap ++ ((code ∷ block) ++ rest)) in
    let wider = gap ++ (code ∷ []) in
    let (g, size, copied) =
      copy_block_lem front wider block rest (omega (arith, length-append gap (code ∷ []))) in
    let read : get_or whole (length front + length gap) 0 ≡ code =
      get_or-append front (gap ++ (code ∷ (block ++ rest))) (length gap) 0
      ∙ get_front gap (block ++ rest) code in
    let shape : whole ≡ front ++ (wider ++ (block ++ rest)) =
      ap (λ t. front ++ t) (sym (snoc_append gap code (block ++ rest))) in
    let total : length whole ≡ length front + length gap + code + length rest = omega (
      arith,
      length-append front (gap ++ (code ∷ (block ++ rest))),
      length-append gap (code ∷ (block ++ rest)),
      length-append block rest,
    ) in
    let whole_size : length g ≡ length gap + 1 =
      omega (arith, size, length-append gap (code ∷ [])) in
    let start : suc (length front + length gap) ≡ length front + length wider =
      omega (arith, length-append gap (code ∷ [])) in
    let moved : copy_block (length block) (suc (length front + length gap)) (length front) whole
        ≡ (front ++ block) ++ (g ++ rest) =
      rw (start, shape) copied in
    let out : length front + length block ≡ length (front ++ block) =
      omega (arith, length-append front block) in
    let next : suc (length front + length gap) + length block ≡ length (front ++ block) + length g =
      omega (arith, whole_size, length-append front block) in
    let more : ltb (suc (length front + length gap) + length block) (length whole)
        ≡ ltb 0 (length rest) =
      ground (arith, total) in
    (
      g,
      whole_size,
      round_step whole (length front + length gap) (length front) (length block) fuel read
            (omega (arith, total))
          ∙ rw (more, moved, out, next) refl,
    )

decode_end : (fuel i o : ℕ) (b : List ℕ) → length b ≤ i → decode_from fuel i o b ≡ some (b, o)
unfolding decode_from
decode_end zero i o b h = refl
decode_end (suc fuel) i o b h = let past : ltb i (length b) ≡ false = ground arith in rw (past) refl

length-blocks : (run bs : List ℕ) → 0 < length (blocks run bs)
unfolding blocks
length-blocks run [] = omega arith
length-blocks run (b ∷ bs) = ground (arith, length-blocks (run ++ (b ∷ [])) bs)

-- The decoder, at a point where `front` is decoded and `stuff` is to come, ends with `out`.
abbrev Decodes : ℕ → (front gap stuff out : List ℕ) → Type 0
Decodes fuel front gap stuff out =
    (g : List ℕ) × (decode_from fuel (length front + length gap) (length front)
        (front ++ (gap ++ stuff))
      ≡ some (out ++ g, length out))

decode_last :
    (front gap run : List ℕ) (fuel : ℕ)
    → suc (length run) ≤ 0xFF
    → Decodes (suc fuel) front gap ((suc (length run) ∷ run) ++ []) (front ++ run)
decode_last front gap run fuel h =
    let (g, size, e) = decode_round front gap run [] fuel h in
    let no : (ltb (suc (length run)) 0xFF && ltb 0 0) ≡ false = ground arith in
    let end =
      decode_end fuel (length (front ++ run) + length g) (length (front ++ run))
        ((front ++ run) ++ (g ++ []))
        (omega (arith, length-append (front ++ run) (g ++ []), length-append g [])) in
    (g ++ [], e ∙ rw (no) end)

decode_zero :
    (front gap run rest out : List ℕ) (fuel : ℕ)
    → suc (length run) < 0xFF
    → 0 < length rest
    → ((gap' : List ℕ) → Decodes fuel ((front ++ run) ++ (0 ∷ [])) gap' rest out)
    → Decodes (suc fuel) front gap ((suc (length run) ∷ run) ++ rest) out
decode_zero front gap run rest out fuel h k ih =
    go (decode_round front gap run rest fuel (omega arith))
  where
    go :
        (g : List ℕ) × (length g ≡ length gap + 1)
          × (decode_from
                (suc fuel)
                (length front + length gap)
                (length front)
                (front ++ (gap ++ ((suc (length run) ∷ run) ++ rest)))
              ≡ (if ltb (suc (length run)) 0xFF && ltb 0 (length rest)
                  then decode_from fuel
                      (length (front ++ run) + length g)
                      (length (front ++ run) + 1)
                      (set ((front ++ run) ++ (g ++ rest)) (length (front ++ run)) 0)
                  else decode_from fuel
                      (length (front ++ run) + length g)
                      (length (front ++ run))
                      ((front ++ run) ++ (g ++ rest))))
        → Decodes (suc fuel) front gap ((suc (length run) ∷ run) ++ rest) out
    go ([], size, e) = absurd (omega arith)
    go (z ∷ gs, size, e) =
        let yes : (ltb (suc (length run)) 0xFF && ltb 0 (length rest)) ≡ true = ground arith in
        let (g, d) = ih gs in
        let placed : set ((front ++ run) ++ (z ∷ (gs ++ rest))) (length (front ++ run)) 0
            ≡ ((front ++ run) ++ (0 ∷ [])) ++ (gs ++ rest) =
          set_front (front ++ run) (gs ++ rest) z 0
          ∙ sym (snoc_append (front ++ run) 0 (gs ++ rest)) in
        let i : length (front ++ run) + suc (length gs)
            ≡ length ((front ++ run) ++ (0 ∷ [])) + length gs =
          omega (arith, length-append (front ++ run) (0 ∷ [])) in
        let o : length (front ++ run) + 1 ≡ length ((front ++ run) ++ (0 ∷ [])) =
          omega (arith, length-append (front ++ run) (0 ∷ [])) in
        (g, e ∙ rw (yes, placed, i, o) d)

decode_full :
    (front gap run rest out : List ℕ) (fuel : ℕ)
    → suc (length run) ≡ 0xFF
    → ((gap' : List ℕ) → Decodes fuel (front ++ run) gap' rest out)
    → Decodes (suc fuel) front gap ((suc (length run) ∷ run) ++ rest) out
decode_full front gap run rest out fuel h ih =
    let (g, size, e) = decode_round front gap run rest fuel (omega arith) in
    let no : (ltb (suc (length run)) 0xFF && ltb 0 (length rest)) ≡ false = ground arith in
    let (g', d) = ih g in (g', e ∙ rw (no) d)

decode_blocks :
    (bs run front gap : List ℕ) (fuel : ℕ)
    → suc (length run) < 0xFF
    → length (blocks run bs) ≤ fuel
    → Decodes fuel front gap (blocks run bs) (front ++ (run ++ bs))
unfolding blocks
decode_blocks [] run front gap zero h k = absurd (omega arith)
decode_blocks [] run front gap (suc fuel) h k =
    let last = decode_last front gap run fuel (omega arith) in
    let whole =
      subst (λ t. Decodes (suc fuel) front gap (suc (length run) ∷ t) (front ++ run))
        (append-nil run) last in
    subst (λ t. Decodes (suc fuel) front gap (suc (length run) ∷ run) (front ++ t))
      (sym (append-nil run)) whole
decode_blocks (b ∷ bs) run front gap zero h k = absurd (omega (arith, length-blocks run (b ∷ bs)))
decode_blocks (b ∷ bs) run front gap (suc fuel) h k =
    let longer = run ++ (b ∷ []) in
    let size : length longer ≡ length run + 1 = omega (arith, length-append run (b ∷ [])) in
    elim (Bool-cases (b == 0)) [
      | inl e ↦
          let k' : length (blocks [] bs) ≤ fuel =
            ground (arith, length-append run (blocks [] bs)) in
          let z : b ≡ 0 = ground arith in
          let out : ((front ++ run) ++ (0 ∷ [])) ++ bs ≡ front ++ (run ++ (b ∷ bs)) =
            snoc_append (front ++ run) 0 bs ∙ append_assoc front run (0 ∷ bs) ∙ rw (z) refl in
          rw (e) (
            decode_zero front gap run (blocks [] bs) (front ++ (run ++ (b ∷ bs))) fuel h
              (length-blocks [] bs)
              (λ gap'.
                subst (λ t. Decodes fuel ((front ++ run) ++ (0 ∷ [])) gap' (blocks [] bs) t) out
                  (decode_blocks bs [] ((front ++ run) ++ (0 ∷ [])) gap' fuel (omega arith) k')))
      | inr e ↦ elim (Bool-cases (suc (length run) + 1 == 0xFF)) [
        | inl full ↦
            let k' : length (blocks [] bs) ≤ fuel =
              ground (arith, length-append longer (blocks [] bs)) in
            let out : (front ++ longer) ++ bs ≡ front ++ (run ++ (b ∷ bs)) =
              append_assoc front longer bs ∙ ap (λ t. front ++ t) (snoc_append run b bs) in
            rw (e, full)
              (decode_full front gap longer (blocks [] bs) (front ++ (run ++ (b ∷ bs))) fuel
                (ground (arith, size))
                (λ gap'.
                  subst (λ t. Decodes fuel (front ++ longer) gap' (blocks [] bs) t) out
                    (decode_blocks bs [] (front ++ longer) gap' fuel (omega arith) k')))
        | inr more ↦
            let k' : length (blocks longer bs) ≤ suc fuel = ground arith in
            let h' : suc (length longer) < 0xFF = ground (arith, size) in
            rw (e, more)
              (subst (λ t. Decodes (suc fuel) front gap (blocks longer bs) (front ++ t))
                (snoc_append run b bs) (decode_blocks bs longer front gap (suc fuel) h' k'))
      ]
    ]

-- The body of an encoded frame, without its delimiter, is decoded in place to the input: the front
-- of the buffer holds it, and its length comes back. This holds of every input that the encoder's
-- capacity test lets through.
pub cobs_decode_in_place-cobs_encode :
    (input : List ℕ) (output_capacity : ℕ)
    → max_encoded (length input) ≤ output_capacity
    → (body : List ℕ) × (rest : List ℕ) × (cobs_encode input output_capacity
        ≡ some (body ++ (0 ∷ [])))
      × (cobs_decode_in_place body ≡ some (input ++ rest, length input))
unfolding cobs_encode cobs_decode_in_place
cobs_decode_in_place-cobs_encode input output_capacity room =
    let fits : ltb output_capacity (max_encoded (length input)) ≡ false = ground arith in
    let body = blocks [] input in
    let some_byte : ltb (length body) 1 ≡ false = ground (arith, length-blocks [] input) in
    let (rest, d) = decode_blocks input [] [] [] (length body) (omega arith) (omega arith) in
    (body, rest, rw (fits) (ap some (encode_from-blocks input [] [] 0)), rw (some_byte) d)
