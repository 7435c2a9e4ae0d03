-- ===== src/HopPolicy/Survey/Laws.antt =====
-- What the scans and the boot survey of src/hop_policy.c give.
use zmk_feature_split_esb.Prelude.{
  ℕ, zero, suc, ◌+◌, ◌*◌, ◌/◌, ◌≤◌, ◌<◌, min, ◌≡◌, refl, ◌⊎◌, inl, inr, ◌∙◌, true, false, ◌&&◌, not,
  ltb, ◌==◌, List, length, get_or, arith, Bool-cases, if◌then◌else◌, ℕ_discrete,
}
use mathlib.Core.Path.{subst}
use zmk_feature_split_esb.Prelude.Int.{ℤ, pos, ltb_ℤ}
use zmk_feature_split_esb.HopPolicy.Mask.{
  mask_get, mask_set, mask_active_count, mask_get-mask_set, mask_active_count-mask_set,
  length-mask_set,
}
use zmk_feature_split_esb.HopPolicy.Survey.{
  worst_channel, is_bad, noisiest, is_noisy, survey_loop, survey_mask,
}
use zmk_feature_split_esb.HopPolicy.Survey.Worst.{IsWorst, scan_worst-IsWorst}

-- The channel that `worst_channel` names is unmasked, no anchor, at the threshold at least and no
-- such channel scores higher; it names the pool's size exactly when there is no such channel.
pub worst_channel-IsWorst :
    (channel_bad mask anchor_mask : List ℕ) (pool_count mask_threshold : ℕ)
    → IsWorst
        (is_bad channel_bad mask anchor_mask mask_threshold)
        (λ channel worst. ltb (get_or channel_bad worst 0) (get_or channel_bad channel 0))
        pool_count
        pool_count
        (worst_channel channel_bad mask anchor_mask pool_count mask_threshold)
unfolding worst_channel
worst_channel-IsWorst channel_bad mask anchor_mask pool_count mask_threshold =
    scan_worst-IsWorst (is_bad channel_bad mask anchor_mask mask_threshold)
      (λ channel worst. ltb (get_or channel_bad worst 0) (get_or channel_bad channel 0)) pool_count
      (λ a b h. ground arith) (λ a b c h k. ground arith)

module _ (energy_dbm : List ℤ) (pool_count : ℕ) (anchor_mask : List ℕ) (threshold_dbm : ℤ) where
  noisiest-IsWorst :
      (mask : List ℕ)
      → IsWorst
          (is_noisy energy_dbm mask anchor_mask threshold_dbm)
          (λ channel worst.
            ltb_ℤ (get_or energy_dbm worst (pos 0)) (get_or energy_dbm channel (pos 0)))
          pool_count
          pool_count
          (noisiest energy_dbm mask anchor_mask pool_count threshold_dbm)
  unfolding noisiest
  noisiest-IsWorst mask =
      scan_worst-IsWorst (is_noisy energy_dbm mask anchor_mask threshold_dbm)
        (λ channel worst.
          ltb_ℤ (get_or energy_dbm worst (pos 0)) (get_or energy_dbm channel (pos 0)))
        pool_count (λ a b h. ground arith) (λ a b c h k. ground arith)

  -- A channel is active, no anchor, and measured at the threshold at least.
  abbrev pub IsLoud : List ℕ → ℕ → Type 0
  IsLoud mask channel =
      (mask_get anchor_mask channel ≡ false)
      × (mask_get mask channel ≡ true)
      × (ltb_ℤ (get_or energy_dbm channel (pos 0)) threshold_dbm ≡ false)

  -- What a survey does to a mask: from `masked` channels off, to the pair that it returns.
  pub record IsSurveyed (min_active masked : ℕ) (mask : List ℕ) (after : ℕ × List ℕ) : Type 0 where
    pub same_size : length after.1 ≡ length mask
    pub cleared_noisy :
        (channel : ℕ)
        → (mask_get after.1 channel ≡ mask_get mask channel)
          ⊎ ((mask_get after.1 channel ≡ false) × IsLoud mask channel)
    pub counted :
        after.0 + mask_active_count after.1 pool_count ≡ masked + mask_active_count mask pool_count
    pub floor :
        min min_active (mask_active_count mask pool_count) ≤ mask_active_count after.1 pool_count

  noisy_worst :
      (mask : List ℕ)
      → (noisiest energy_dbm mask anchor_mask pool_count threshold_dbm == pool_count) ≡ false
      → (noisiest energy_dbm mask anchor_mask pool_count threshold_dbm < pool_count)
        × (is_noisy energy_dbm mask anchor_mask threshold_dbm
              (noisiest energy_dbm mask anchor_mask pool_count threshold_dbm)
            ≡ true)
  noisy_worst mask h = elim (noisiest-IsWorst mask) [
    | inl (e, _) ↦ absurd (ground arith)
    | inr (l, q, _) ↦ (l, q)
  ]

  is_noisy-active :
      (mask : List ℕ) (channel : ℕ)
      → is_noisy energy_dbm mask anchor_mask threshold_dbm channel ≡ true
      → mask_get mask channel ≡ true
  unfolding is_noisy
  is_noisy-active mask channel h = ground arith

  is_noisy-IsLoud :
      (mask : List ℕ) (channel : ℕ)
      → is_noisy energy_dbm mask anchor_mask threshold_dbm channel ≡ true
      → IsLoud mask channel
  unfolding is_noisy
  is_noisy-IsLoud mask channel h =
      (ground (arith, h), is_noisy-active mask channel h, ground (arith, h))

  -- One round: the worst channel is masked, and it was noisy.
  round_IsSurveyed :
      (min_active masked worst : ℕ) (mask : List ℕ) (after : ℕ × List ℕ)
      → worst / 8 < length mask
      → worst < pool_count
      → is_noisy energy_dbm mask anchor_mask threshold_dbm worst ≡ true
      → min_active < mask_active_count mask pool_count
      → IsSurveyed min_active (masked + 1) (mask_set mask worst false) after
      → IsSurveyed min_active masked mask after
  round_IsSurveyed min_active masked worst mask after h k q m s =
      let count = mask_active_count-mask_set mask worst false pool_count h k in
      let on : mask_get mask worst ≡ true = is_noisy-active mask worst q in
      record {
        same_size = s.same_size ∙ length-mask_set mask worst false;
        cleared_noisy = λ channel. cleared channel (s.cleared_noisy channel);
        counted = ground (arith, s.counted, count, on);
        floor = ground (arith, s.floor, count, on);
      }
    where
      get :
          (channel : ℕ)
          → mask_get (mask_set mask worst false) channel
            ≡ (if worst == channel then false else mask_get mask channel)
      get channel = mask_get-mask_set mask worst channel false h

      cleared :
          (channel : ℕ)
          → ((mask_get after.1 channel ≡ mask_get (mask_set mask worst false) channel)
              ⊎ ((mask_get after.1 channel ≡ false) × IsLoud (mask_set mask worst false) channel))
          → (mask_get after.1 channel ≡ mask_get mask channel)
            ⊎ ((mask_get after.1 channel ≡ false) × IsLoud mask channel)
      cleared channel (inl e) = elim (ℕ_discrete worst channel) [
        | yes w ↦
            inr (ground (arith, get channel), subst (IsLoud mask) w (is_noisy-IsLoud mask worst q))
        | no w ↦ inl (ground (arith, get channel))
      ]
      cleared channel (inr (e, (free, active, loud))) =
          inr (e, (free, ground (arith, get channel, active), loud))

  survey_loop-IsSurveyed :
      (fuel min_active masked : ℕ) (mask : List ℕ)
      → pool_count ≤ 8 * length mask
      → IsSurveyed min_active masked mask
          (survey_loop fuel energy_dbm pool_count anchor_mask min_active threshold_dbm masked mask)
  unfolding survey_loop
  survey_loop-IsSurveyed zero min_active masked mask h = record {
    same_size = refl;
    cleared_noisy = λ c. inl refl;
    counted = refl;
    floor = omega arith;
  }
  survey_loop-IsSurveyed (suc fuel) min_active masked mask h =
      let worst = noisiest energy_dbm mask anchor_mask pool_count threshold_dbm in
      elim (Bool-cases
        (ltb min_active (mask_active_count mask pool_count) && not (worst == pool_count))) [
          | inl e ↦
              let (l, q) = noisy_worst mask (ground arith) in
              rw (e, survey_loop)
                (round_IsSurveyed min_active masked worst mask _ (omega arith) l q (ground arith) (
                  survey_loop-IsSurveyed fuel min_active (masked + 1) (mask_set mask worst false)
                    (omega (arith, length-mask_set mask worst false))))
          | inr e ↦
              rw (e, survey_loop)
                (record {
                  same_size = refl;
                  cleared_noisy = λ c. inl refl;
                  counted = refl;
                  floor = omega arith;
                })
        ]

  -- Why a survey stopped.
  abbrev pub IsSettled : ℕ → List ℕ → Type 0
  IsSettled min_active mask =
      (mask_active_count mask pool_count ≤ min_active)
      ⊎ ((channel : ℕ)
          → channel < pool_count
          → is_noisy energy_dbm mask anchor_mask threshold_dbm channel ≡ false)

  -- The survey only clears channels that are active, no anchors and at the threshold at least, it
  -- returns how many it cleared, and it never takes the count of active channels below the smaller
  -- of `min_active` and the count that it found.
  pub survey_mask-IsSurveyed :
      (min_active : ℕ) (mask : List ℕ)
      → pool_count ≤ 8 * length mask
      → IsSurveyed min_active 0 mask
          (survey_mask energy_dbm pool_count anchor_mask min_active threshold_dbm mask)
  unfolding survey_mask
  survey_mask-IsSurveyed min_active mask h =
      survey_loop-IsSurveyed (suc pool_count) min_active 0 mask h
