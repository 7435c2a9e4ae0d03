-- ===== src/HopPolicy/Channel/Laws.antt =====
-- Which channel src/hop_policy.c picks.
use zmk_feature_split_esb.Prelude.{
  ℕ, zero, suc, ◌+◌, ◌-◌, ◌*◌, ◌/◌, ◌%◌, ◌≤◌, ◌<◌, ◌≡◌, refl, ◌⊎◌, inl, inr, true, false, List,
  arith, Bool-cases, dec_lt, ap, ◌∙◌,
}
use mathlib.Core.Path.{subst}
use native.Mathlib.Nat.{
  mod-lt, le-div_iff_mul-le, div-mul-le_self, mul-le-mul_left, mod-eq_of_lt, add-zero,
  div-lt_iff_lt-mul,
}
use zmk_feature_split_esb.HopPolicy.Mask.{mask_get}
use zmk_feature_split_esb.HopPolicy.Channel.{
  first_active, index_next_active, channel_for_epoch, channel_for_epoch_masked,
  anchor_default_index,
}

module _ (mask : List ℕ) (count start : ℕ) where
  -- The channel at `k` steps from `start`, round the pool.
  abbrev pub at : ℕ → ℕ
  at k = (start + k) % count

  -- What a search of `rounds` candidates from `step` on answers.
  abbrev pub IsFirst : ℕ → ℕ → ℕ → ℕ → Type 0
  IsFirst rounds step otherwise r =
      ((k : ℕ) × (k < rounds)
        × (mask_get mask (at (step + k)) ≡ true)
        × (r ≡ at (step + k) % 256)
        × ((j : ℕ) → j < k → mask_get mask (at (step + j)) ≡ false))
      ⊎ ((r ≡ otherwise) × ((j : ℕ) → j < rounds → mask_get mask (at (step + j)) ≡ false))

  shift_zero :
      (P : ℕ → Type 0) (step k : ℕ)
      → P (at step)
      → ((j : ℕ) → j < k → P (at (suc step + j)))
      → (j : ℕ) → j < suc k
      → P (at (step + j))
  shift_zero P step k h t zero l =
      let e : step ≡ step + 0 = omega arith in subst (λ s. P (at s)) e h
  shift_zero P step k h t (suc j) l =
      let e : suc step + j ≡ step + suc j = omega arith in
      subst (λ s. P (at s)) e (t j (omega arith))

  extend_IsFirst :
      (rounds step otherwise r : ℕ)
      → mask_get mask (at step) ≡ false
      → IsFirst rounds (suc step) otherwise r
      → IsFirst (suc rounds) step otherwise r
  extend_IsFirst rounds step otherwise r h (inl (k, l, on, e, off)) =
      let s : suc step + k ≡ step + suc k = omega arith in
      inl (
        suc k,
        omega arith,
        subst (λ s. mask_get mask (at s) ≡ true) s on,
        e ∙ ap (λ s. at s % 256) s,
        shift_zero (λ c. mask_get mask c ≡ false) step k h off,
      )
  extend_IsFirst rounds step otherwise r h (inr (e, off)) =
      inr (e, shift_zero (λ c. mask_get mask c ≡ false) step rounds h off)

  first_active-IsFirst :
      (rounds step otherwise : ℕ)
      → IsFirst rounds step otherwise (first_active mask count start rounds step otherwise)
  unfolding first_active
  first_active-IsFirst zero step otherwise = inr (refl, λ j l. elim l [ ])
  first_active-IsFirst (suc rounds) step otherwise = elim (Bool-cases (mask_get mask (at step))) [
    | inl e ↦
        let z : step ≡ step + 0 = omega arith in
        rw (e, first_active)
          (inl (
            0,
            omega arith,
            subst (λ s. mask_get mask (at s) ≡ true) z e,
            ap (λ s. at s % 256) z,
            λ j l. elim l [ ],
          ))
    | inr e ↦
        rw (e, first_active)
          (extend_IsFirst rounds step otherwise _ e
            (first_active-IsFirst rounds (suc step) otherwise))
  ]

-- `count` steps from any start pass every channel of the pool.
pub reaches :
    (count start channel : ℕ)
    → start < count
    → channel < count
    → (j : ℕ) × (j < count) × ((start + j) % count ≡ channel)
reaches count start channel h k = elim (dec_lt channel start) [
  | yes p ↦
      let back : (start + (channel + count - start)) % count ≡ channel = grind arith in
      (channel + count - start, omega arith, back)
  | no p ↦
      let on : (start + (channel - start)) % count ≡ channel = grind arith in
      (channel - start, omega arith, on)
]

reaches_next :
    (count start channel : ℕ)
    → start < count
    → channel < count
    → (j : ℕ) × (j < count) × ((start + (1 + j)) % count ≡ channel)
reaches_next count start channel h k = elim (dec_lt start channel) [
  | yes p ↦
      let on : (start + (1 + (channel - start - 1))) % count ≡ channel = grind arith in
      (channel - start - 1, omega arith, on)
  | no p ↦
      let back : (start + (1 + (channel + count - start - 1))) % count ≡ channel = grind arith in
      (channel + count - start - 1, omega arith, back)
]

module _ (mask : List ℕ) (pool_count : ℕ) (nonempty : 0 < pool_count)
    (small : pool_count ≤ 256) where
  abbrev pub IsActive : ℕ → Type 0
  IsActive c = (c < pool_count) × (mask_get mask c ≡ true)

  at_lt : (k : ℕ) → k % pool_count < pool_count
  at_lt k = mod-lt k nonempty

  at_byte : (k : ℕ) → k % pool_count % 256 ≡ k % pool_count
  at_byte k = omega (arith, at_lt k)

  -- Whatever the mask, both searches stay in the pool.
  pub channel_for_epoch_masked-lt :
      (epoch : ℕ) → channel_for_epoch_masked epoch mask pool_count < pool_count
  unfolding channel_for_epoch_masked
  channel_for_epoch_masked-lt epoch =
      let base : ℕ = epoch % pool_count in
      elim (first_active-IsFirst mask pool_count base pool_count 0 (base % 256)) [
        | inl (k, _, _, e, _) ↦ omega (arith, e, at_lt (base + (0 + k)))
        | inr (e, _) ↦ omega (arith, e, at_lt epoch)
      ]

  pub index_next_active-lt :
      (index : ℕ) → index < pool_count → index_next_active index mask pool_count < pool_count
  unfolding index_next_active
  index_next_active-lt index h =
      elim (first_active-IsFirst mask pool_count index pool_count 1 index) [
        | inl (k, _, _, e, _) ↦ omega (arith, e, at_lt (index + (1 + k)))
        | inr (e, _) ↦ omega (arith, e)
      ]

  -- With an active channel in the pool every epoch maps to an active channel of the pool.
  pub channel_for_epoch_masked-IsActive :
      (epoch c : ℕ) → IsActive c → IsActive (channel_for_epoch_masked epoch mask pool_count)
  unfolding channel_for_epoch_masked
  channel_for_epoch_masked-IsActive epoch c (l, on) =
      let base : ℕ = epoch % pool_count in
      elim (first_active-IsFirst mask pool_count base pool_count 0 (base % 256)) [
        | inl (k, _, hit, e, _) ↦ rw (e, at_byte (base + (0 + k))) (at_lt (base + (0 + k)), hit)
        | inr (_, off) ↦
            let (j, l', e) = reaches pool_count base c (at_lt epoch) l in
            let z : 0 + j ≡ j = omega arith in absurd (cc (off j l', z, e, on))
      ]

  -- The epoch's own channel is kept where it is active, and where no channel is.
  pub channel_for_epoch_masked-base :
      (epoch : ℕ)
      → ((mask_get mask (epoch % pool_count) ≡ true)
          ⊎ ((c : ℕ) → c < pool_count → mask_get mask c ≡ false))
      → channel_for_epoch_masked epoch mask pool_count ≡ channel_for_epoch epoch pool_count
  unfolding channel_for_epoch_masked channel_for_epoch
  channel_for_epoch_masked-base epoch h =
      let base : ℕ = epoch % pool_count in
      let zero_step : (base + (0 + 0)) % pool_count ≡ base =
        ap (λ k. k % pool_count) (add-zero base) ∙ mod-eq_of_lt (at_lt epoch) in
      elim (first_active-IsFirst mask pool_count base pool_count 0 (base % 256)) [
        | inl (zero, _, hit, e, _) ↦ rw (e, zero_step)
        | inl (suc k, l, hit, e, off) ↦ elim h [
          | inl on ↦ absurd (cc (off 0 (omega arith), zero_step, on))
          | inr none ↦ absurd (cc (none _ (at_lt (base + (0 + suc k))), hit))
        ]
        | inr (e, _) ↦ e
      ]

  -- The next active channel: of the pool, active, and no active channel is passed over on the way
  -- from `index`; the mask has at least one active channel.
  pub index_next_active-nearest :
      (index c : ℕ)
      → index < pool_count
      → IsActive c
      → IsActive (index_next_active index mask pool_count)
        × ((k : ℕ) × (index_next_active index mask pool_count ≡ (index + suc k) % pool_count)
            × ((j : ℕ) → j < k → mask_get mask ((index + suc j) % pool_count) ≡ false))
  unfolding index_next_active
  index_next_active-nearest index c h (l, on) =
      elim (first_active-IsFirst mask pool_count index pool_count 1 index) [
        | inl (k, _, hit, e, off) ↦
            let one : (j : ℕ) → 1 + j ≡ suc j = λ j. omega arith in
            rw (e, at_byte (index + (1 + k)))
              ((at_lt (index + (1 + k)), hit), (k, rw (one k), λ j l. rw (← one j) (off j l)))
        | inr (_, off) ↦
            let (j, l', e) = reaches_next pool_count index c h l in absurd (cc (off j l', e, on))
      ]

  -- With no active channel the index stays.
  pub index_next_active-none :
      (index : ℕ)
      → ((c : ℕ) → c < pool_count → mask_get mask c ≡ false)
      → index_next_active index mask pool_count ≡ index
  unfolding index_next_active
  index_next_active-none index off =
      elim (first_active-IsFirst mask pool_count index pool_count 1 index) [
        | inl (k, _, hit, _, _) ↦ absurd (cc (off _ (at_lt (index + (1 + k))), hit))
        | inr (e, _) ↦ e
      ]

-- The default anchors lie in the pool, and each lies above the one before.
pub anchor_default_index-increasing :
    (slot pool_count anchor_count : ℕ)
    → slot < anchor_count
    → anchor_count ≤ pool_count
    → pool_count ≤ 255
    → (anchor_default_index slot pool_count anchor_count < pool_count)
      × (suc slot < anchor_count
          → anchor_default_index slot pool_count anchor_count
            < anchor_default_index (suc slot) pool_count anchor_count)
unfolding anchor_default_index
anchor_default_index-increasing slot pool_count anchor_count h k l =
    let above : pool_count * (2 * slot + 1) / (2 * anchor_count)
        < pool_count * (2 * suc slot + 1) / (2 * anchor_count) =
      (le-div_iff_mul-le {k = 2 * anchor_count} (omega arith)).1
        (omega (arith, div-mul-le_self (pool_count * (2 * slot + 1)) (2 * anchor_count), k)) in
    (omega (arith, inside slot h), λ m. omega (arith, above, inside slot h, inside (suc slot) m))
  where
    inside : (s : ℕ) → s < anchor_count → pool_count * (2 * s + 1) / (2 * anchor_count) < pool_count
    inside s m = (div-lt_iff_lt-mul {k = 2 * anchor_count} (omega arith)).1 (
        omega
          (arith, mul-le-mul_left {m = 2 * s + 2} {n = 2 * anchor_count} pool_count (omega arith)))
