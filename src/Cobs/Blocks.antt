-- ===== src/Cobs/Blocks.antt =====
-- What src/cobs.c encodes, block by block.
use zmk_feature_split_esb.Prelude.{
  ℕ, suc, ◌+◌, ◌≡◌, refl, ap, ◌∙◌, ◌==◌, if◌then◌else◌, List, [], ◌∷◌, ◌++◌, length, get_or, set,
  length-append, arith, Bool-cases, inl, inr,
}
use mathlib.Core.List.{append_assoc}
use zmk_feature_split_esb.Cobs.{close_block, encode_from}

-- The blocks of an input, the open one holding `run`.
unfoldable pub blocks : List ℕ → List ℕ → List ℕ
blocks run [] = suc (length run) ∷ run
blocks run (b ∷ bs) =
    let on_zero = (suc (length run) ∷ run) ++ blocks [] bs in
    let on_full = (suc (length (run ++ (b ∷ []))) ∷ (run ++ (b ∷ []))) ++ blocks [] bs in
    let on_byte = blocks (run ++ (b ∷ [])) bs in
    if b == 0 then on_zero else if suc (length run) + 1 == 0xFF then on_full else on_byte

pub snoc_append : (xs : List ℕ) (v : ℕ) (ys : List ℕ) → (xs ++ (v ∷ [])) ++ ys ≡ xs ++ (v ∷ ys)
snoc_append xs v ys = append_assoc xs (v ∷ []) ys

pub set_front :
    (front xs : List ℕ) (x v : ℕ) → set (front ++ (x ∷ xs)) (length front) v ≡ front ++ (v ∷ xs)
set_front [] xs x v = refl
set_front (y ∷ front) xs x v = ap (λ t. y ∷ t) (set_front front xs x v)

pub get_front : (front xs : List ℕ) (x : ℕ) → get_or (front ++ (x ∷ xs)) (length front) 0 ≡ x
get_front [] xs x = refl
get_front (y ∷ front) xs x = get_front front xs x

-- A closed block and the reserved byte behind it.
pub close_block_lem :
    (done run bs : List ℕ) (x : ℕ)
    → ((d r : List ℕ) (y : ℕ)
        → encode_from bs (d ++ (y ∷ r)) (length d) (suc (length r))
          ≡ (d ++ blocks r bs) ++ (0 ∷ []))
    → encode_from bs
        (close_block (done ++ (x ∷ run)) (length done) (suc (length run)))
        (length (done ++ (x ∷ run)))
        1
      ≡ (done ++ ((suc (length run) ∷ run) ++ blocks [] bs)) ++ (0 ∷ [])
unfolding close_block
close_block_lem done run bs x ih =
    let closed = suc (length run) ∷ run in
    let size : length (done ++ (x ∷ run)) ≡ length (done ++ closed) =
      omega (arith, length-append done (x ∷ run), length-append done closed) in
    rw (set_front done run x (suc (length run)), size)
      (ih (done ++ closed) [] 0 ∙ ap (λ t. t ++ (0 ∷ [])) (append_assoc done closed (blocks [] bs)))

pub encode_from-blocks :
    (bs done run : List ℕ) (x : ℕ)
    → encode_from bs (done ++ (x ∷ run)) (length done) (suc (length run))
      ≡ (done ++ blocks run bs) ++ (0 ∷ [])
unfolding encode_from blocks
encode_from-blocks [] done run x =
    let closed = set_front done run x (suc (length run)) in unfold close_block in rw closed refl
encode_from-blocks (b ∷ bs) done run x =
    let longer : (done ++ (x ∷ run)) ++ (b ∷ []) ≡ done ++ (x ∷ (run ++ (b ∷ []))) =
      append_assoc done (x ∷ run) (b ∷ []) in
    let code : suc (length run) + 1 ≡ suc (length (run ++ (b ∷ []))) =
      omega (arith, length-append run (b ∷ [])) in
    elim (Bool-cases (b == 0)) [
      | inl e ↦ rw (e) (close_block_lem done run bs x (encode_from-blocks bs))
      | inr e ↦ elim (Bool-cases (suc (length run) + 1 == 0xFF)) [
        | inl full ↦
            rw (e, full, longer, code)
              (close_block_lem done (run ++ (b ∷ [])) bs x (encode_from-blocks bs))
        | inr more ↦ rw (e, more, longer, code) (encode_from-blocks bs done (run ++ (b ∷ [])) x)
      ]
    ]
