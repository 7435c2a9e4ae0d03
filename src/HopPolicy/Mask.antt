-- ===== src/HopPolicy/Mask.antt =====
-- src/hop_policy.c: the active-channel bitmap over the pool, channel `index` at bit `index % 8` of
-- byte `index / 8`. A read past the mask gives a clear bit and a write there changes nothing.
use zmk_feature_split_esb.Prelude.{
  ℕ, zero, suc, ◌+◌, ◌/◌, ◌%◌, ◌≤◌, ◌<◌, ◌≡◌, refl, Bool, true, false, ◌==◌, if◌then◌else◌, List,
  length, get_or, set, length-set, get_or-set, arith, Bool-cases, inl, inr, ==_iff, ap, ltb, leb,
  ◌&&◌,
}
use zmk_feature_split_esb.Prelude.Bits.{
  test_bit, set_bit, clear_bit, test_bit-set_bit, test_bit-clear_bit,
}

unfoldable pub mask_get : List ℕ → ℕ → Bool
mask_get mask index = test_bit (get_or mask (index / 8) 0) (index % 8)

-- Both operands of the `|` are bytes, so its cast to a byte drops nothing.
unfoldable pub mask_set : List ℕ → ℕ → Bool → List ℕ
mask_set mask index active =
    let byte = get_or mask (index / 8) 0 in
    if active
    then set mask (index / 8) (set_bit byte (index % 8))
    else set mask (index / 8) (clear_bit 8 byte (index % 8))

-- The channels set among the `n` from `index` on.
unfoldable pub active_from : List ℕ → ℕ → ℕ → ℕ
active_from mask zero index = 0
active_from mask (suc n) index =
    (if mask_get mask index then 1 else 0) + active_from mask n (suc index)

unfoldable pub mask_active_count : List ℕ → ℕ → ℕ
unfolding active_from
mask_active_count mask pool_count = active_from mask pool_count 0

pub length-mask_set :
    (mask : List ℕ) (index : ℕ) (active : Bool) → length (mask_set mask index active) ≡ length mask
unfolding mask_set
length-mask_set mask index true = length-set mask _ _
length-mask_set mask index false = length-set mask _ _

same_place : (i j : ℕ) → i / 8 ≡ j / 8 → (i % 8 == j % 8) ≡ (i == j)
same_place i j h = ground arith

-- A written channel reads back, and every other channel of the mask keeps its bit.
pub mask_get-mask_set :
    (mask : List ℕ) (i j : ℕ) (active : Bool)
    → i / 8 < length mask
    → mask_get (mask_set mask i active) j ≡ (if i == j then active else mask_get mask j)
unfolding mask_get mask_set
mask_get-mask_set mask i j true h =
    let byte : ℕ = get_or mask (i / 8) 0 in
    let read = get_or-set mask (i / 8) (j / 8) (set_bit byte (i % 8)) 0 h in
    elim (Bool-cases (i / 8 == j / 8)) [
      | inl e ↦
          rw (read, e, test_bit-set_bit byte (i % 8) (j % 8), same_place i j ((==_iff _ _).0 e))
            (ap (λ k. if i == j then true else test_bit (get_or mask k 0) (j % 8))
              ((==_iff _ _).0 e))
      | inr e ↦ rw (read, e) (ground arith)
    ]
mask_get-mask_set mask i j false h =
    let byte : ℕ = get_or mask (i / 8) 0 in
    let read = get_or-set mask (i / 8) (j / 8) (clear_bit 8 byte (i % 8)) 0 h in
    let bit = test_bit-clear_bit 8 byte (i % 8) (j % 8) (omega arith) (omega arith) in
    elim (Bool-cases (i / 8 == j / 8)) [
      | inl e ↦
          rw (read, e, bit, same_place i j ((==_iff _ _).0 e))
            (ap (λ k. if i == j then false else test_bit (get_or mask k 0) (j % 8))
              ((==_iff _ _).0 e))
      | inr e ↦ rw (read, e) (ground arith)
    ]

abbrev pub bit_value : Bool → ℕ
bit_value true = 1
bit_value false = 0

-- Writing one channel moves the count by that channel alone.
active_from-mask_set :
    (mask : List ℕ) (i : ℕ) (active : Bool) (n index : ℕ)
    → i / 8 < length mask
    → active_from (mask_set mask i active) n index
        + bit_value (leb index i && ltb i (index + n) && mask_get mask i)
      ≡ active_from mask n index + bit_value (leb index i && ltb i (index + n) && active)
unfolding active_from
active_from-mask_set mask i active zero index h = ground arith
active_from-mask_set mask i active (suc n) index h = ground (
  arith,
  mask_get-mask_set mask i index active h,
  active_from-mask_set mask i active n (suc index) h,
)

-- A write in the pool changes the count of active channels by exactly the change of that channel's
-- bit.
pub mask_active_count-mask_set :
    (mask : List ℕ) (i : ℕ) (active : Bool) (pool_count : ℕ)
    → i / 8 < length mask
    → i < pool_count
    → mask_active_count (mask_set mask i active) pool_count + bit_value (mask_get mask i)
      ≡ mask_active_count mask pool_count + bit_value active
unfolding mask_active_count
mask_active_count-mask_set mask i active n h k =
    ground (arith, active_from-mask_set mask i active n 0 h)

-- Masks that agree on the pool have the same count.
active_from-congr :
    (m m' : List ℕ) (n index : ℕ)
    → ((i : ℕ) → i < index + n → mask_get m i ≡ mask_get m' i)
    → active_from m n index ≡ active_from m' n index
unfolding active_from
active_from-congr m m' zero index h = refl
active_from-congr m m' (suc n) index h =
    rw (h index (omega arith), active_from-congr m m' n (suc index) (λ i l. h i (omega arith)))

active_from-le : (mask : List ℕ) (n index : ℕ) → active_from mask n index ≤ n
unfolding active_from
active_from-le mask zero index = omega arith
active_from-le mask (suc n) index = ground (arith, active_from-le mask n (suc index))

pub mask_active_count-le : (mask : List ℕ) (n : ℕ) → mask_active_count mask n ≤ n
unfolding mask_active_count
mask_active_count-le mask n = active_from-le mask n 0
