-- ===== src/HopPolicy/Store.antt =====
-- src/hop_policy.c: the stored form of a mask: the pool's size, its channels, then the mask.
use zmk_feature_split_esb.Prelude.{
  ℕ, suc, sym, ◌∙◌, ◌↔◌, ◌+◌, ◌/◌, ◌≤◌, ◌≡◌, refl, Bool, true, false, ◌&&◌, ◌||◌, not, ltb, ◌==◌,
  if◌then◌else◌, Option, none, some, List, [], ◌∷◌, ◌++◌, length, get_or, take, drop, arith,
  length-append, drop-append, take-append, take_all,
}
use mathlib.Core.Bool.{false≢true}

-- HOP_POLICY_MASK_STORE_LENGTH
abbrev pub mask_store_length : ℕ → ℕ
mask_store_length pool_count = 1 + pool_count + (pool_count + 7) / 8

-- `memcmp(a, b, …) == 0` on blocks of one length.
unfoldable pub same_bytes : List ℕ → List ℕ → Bool
same_bytes [] [] = true
same_bytes (x ∷ xs) (y ∷ ys) = x == y && same_bytes xs ys
same_bytes _ _ = false

-- The bytes written to the front of `stored`; `none` is the returned length 0.
unfoldable pub mask_store_encode : ℕ → List ℕ → List ℕ → ℕ → Option (List ℕ)
mask_store_encode stored_size channels mask pool_count =
    if ltb 255 pool_count || ltb stored_size (mask_store_length pool_count)
    then none
    else some (pool_count ∷ take pool_count channels ++ take ((pool_count + 7) / 8) mask)

unfoldable pub mask_store_matches : List ℕ → ℕ → List ℕ → ℕ → Bool
unfolding same_bytes
mask_store_matches stored stored_length channels pool_count =
    if ltb 255 pool_count || not (stored_length == mask_store_length pool_count)
    then false
    else if not (get_or stored 0 0 == pool_count)
    then false
    else same_bytes (take pool_count (drop 1 stored)) (take pool_count channels)

-- The stored block from the mask on.
unfoldable pub mask_store_mask : List ℕ → ℕ → List ℕ
mask_store_mask stored pool_count = drop (1 + pool_count) stored

same_bytes_refl : (xs : List ℕ) → same_bytes xs xs ≡ true
unfolding same_bytes
same_bytes_refl [] = refl
same_bytes_refl (x ∷ xs) = ground (arith, same_bytes_refl xs)

same_bytes→eq : (xs ys : List ℕ) → same_bytes xs ys ≡ true → xs ≡ ys
unfolding same_bytes
same_bytes→eq [] [] h = refl
same_bytes→eq [] (y ∷ ys) h = absurd (false≢true h)
same_bytes→eq (x ∷ xs) [] h = absurd (false≢true h)
same_bytes→eq (x ∷ xs) (y ∷ ys) h = ground (arith, same_bytes→eq xs ys)

encoded :
    (channels mask stored : List ℕ) (pool_count stored_size : ℕ)
    → length channels ≡ pool_count
    → length mask ≡ (pool_count + 7) / 8
    → mask_store_encode stored_size channels mask pool_count ≡ some stored
    → (pool_count ≤ 255) × (stored ≡ pool_count ∷ (channels ++ mask))
unfolding mask_store_encode
encoded channels mask stored pool_count stored_size hc hm e =
    ground (arith, take_all pool_count channels hc, take_all ((pool_count + 7) / 8) mask hm)

-- The three readings of a block, its pool's size being the number of its channels.
block_mask :
    (n : ℕ) (channels mask : List ℕ)
    → length channels ≡ n
    → mask_store_mask (n ∷ (channels ++ mask)) n ≡ mask
unfolding mask_store_mask
block_mask n channels mask h =
    let e : 1 + n ≡ suc (length channels) = omega arith in rw e (drop-append channels mask)

block_channels :
    (n : ℕ) (channels mask : List ℕ)
    → length channels ≡ n
    → take n (drop 1 (n ∷ (channels ++ mask))) ≡ channels
block_channels n channels mask h = rw (← h) (take-append channels mask)

block_matches :
    (n : ℕ) (channels mask other : List ℕ)
    → length channels ≡ n
    → length other ≡ n
    → n ≤ 255
    → length (n ∷ (channels ++ mask)) ≡ mask_store_length n
    → mask_store_matches (n ∷ (channels ++ mask)) (length (n ∷ (channels ++ mask))) other n
      ≡ same_bytes channels other
unfolding mask_store_matches
block_matches n channels mask other h k l m =
    ground (arith, m, block_channels n channels mask h, take_all n other k)

fits :
    (channels mask : List ℕ) (pool_count stored_size : ℕ)
    → pool_count ≤ 255
    → mask_store_length pool_count ≤ stored_size
    → (stored : List ℕ) × (mask_store_encode stored_size channels mask pool_count ≡ some stored)
unfolding mask_store_encode
fits channels mask pool_count stored_size small room =
    let no : (ltb 255 pool_count || ltb stored_size (mask_store_length pool_count)) ≡ false =
      ground arith in
    rw (no) (_, refl)

stored_lem :
    (channels mask other stored : List ℕ) (pool_count stored_size : ℕ)
    → length channels ≡ pool_count
    → length mask ≡ (pool_count + 7) / 8
    → length other ≡ pool_count
    → mask_store_encode stored_size channels mask pool_count ≡ some stored
    → (length stored ≡ mask_store_length pool_count)
      × (mask_store_mask stored pool_count ≡ mask)
      × ((mask_store_matches stored (length stored) other pool_count ≡ true) ↔ (other ≡ channels))
stored_lem channels mask other stored pool_count stored_size hc hm ho e =
    let (small, shape) = encoded channels mask stored pool_count stored_size hc hm e in
    let size : length (pool_count ∷ (channels ++ mask)) ≡ mask_store_length pool_count =
      omega (arith, length-append channels mask) in
    let same = block_matches pool_count channels mask other hc ho small size in
    rw shape (
      size,
      block_mask pool_count channels mask hc,
      (
        λ h. sym (same_bytes→eq channels other (cc (same, h))),
        λ h. same ∙ rw h (same_bytes_refl channels),
      ),
    )

-- A mask of a pool of at most 255 channels is stored in any buffer with room for it, in a block of
-- the stated length; the block matches exactly the pools of that size with the same channels, and
-- gives the mask back.
pub mask_store_matches-encode :
    (channels mask other : List ℕ) (pool_count stored_size : ℕ)
    → length channels ≡ pool_count
    → length mask ≡ (pool_count + 7) / 8
    → length other ≡ pool_count
    → pool_count ≤ 255
    → mask_store_length pool_count ≤ stored_size
    → (stored : List ℕ) × (mask_store_encode stored_size channels mask pool_count ≡ some stored)
      × (length stored ≡ mask_store_length pool_count)
      × (mask_store_mask stored pool_count ≡ mask)
      × ((mask_store_matches stored (length stored) other pool_count ≡ true) ↔ (other ≡ channels))
mask_store_matches-encode channels mask other pool_count stored_size hc hm ho small room =
    let (stored, e) = fits channels mask pool_count stored_size small room in
    let (size, back, same) =
      stored_lem channels mask other stored pool_count stored_size hc hm ho e in
    (stored, e, size, back, same)
