-- ===== src/HopPolicy/Survey.antt =====
-- src/hop_policy.c: the worst channel by score, and the boot survey that masks noisy channels.
pub mod Worst
pub mod Laws
use zmk_feature_split_esb.Prelude.{
  ℕ, zero, suc, ◌+◌, Bool, true, false, ◌&&◌, ◌||◌, not, ltb, leb, ◌==◌, if◌then◌else◌, List,
  get_or,
}
use zmk_feature_split_esb.Prelude.Int.{ℤ, pos, leb_ℤ, ltb_ℤ}
use zmk_feature_split_esb.HopPolicy.Mask.{mask_get, mask_set, mask_active_count}

-- The loop over the channels from `channel` on, `rounds` of them: `worst` is the best candidate so
-- far, and `pool_count` while there is none.
unfoldable pub scan_worst : (ℕ → Bool) → (ℕ → ℕ → Bool) → ℕ → ℕ → ℕ → ℕ → ℕ
scan_worst qualifies worse pool_count zero channel worst = worst
scan_worst qualifies worse pool_count (suc rounds) channel worst =
    scan_worst qualifies worse pool_count rounds (suc channel)
      (if qualifies channel && (worst == pool_count || worse channel worst) then channel else worst)

-- Anchors and masked channels are passed over, and so are those below the threshold.
unfoldable pub is_bad : List ℕ → List ℕ → List ℕ → ℕ → ℕ → Bool
is_bad channel_bad mask anchor_mask mask_threshold channel =
    not (mask_get anchor_mask channel || not (mask_get mask channel))
    && not (ltb (get_or channel_bad channel 0) mask_threshold)

unfoldable pub worst_channel : List ℕ → List ℕ → List ℕ → ℕ → ℕ → ℕ
unfolding scan_worst is_bad
worst_channel channel_bad mask anchor_mask pool_count mask_threshold =
    scan_worst (is_bad channel_bad mask anchor_mask mask_threshold)
      (λ channel worst. ltb (get_or channel_bad worst 0) (get_or channel_bad channel 0)) pool_count
      pool_count 0 pool_count

unfoldable pub is_noisy : List ℤ → List ℕ → List ℕ → ℤ → ℕ → Bool
is_noisy energy_dbm mask anchor_mask threshold_dbm channel =
    not (mask_get anchor_mask channel || not (mask_get mask channel))
    && not (ltb_ℤ (get_or energy_dbm channel (pos 0)) threshold_dbm)

unfoldable pub noisiest : List ℤ → List ℕ → List ℕ → ℕ → ℤ → ℕ
unfolding scan_worst is_noisy
noisiest energy_dbm mask anchor_mask pool_count threshold_dbm =
    scan_worst (is_noisy energy_dbm mask anchor_mask threshold_dbm)
      (λ channel worst. ltb_ℤ (get_or energy_dbm worst (pos 0)) (get_or energy_dbm channel (pos 0)))
      pool_count pool_count 0 pool_count

-- The `while` loop on fuel: the mask and the count masked so far.
unfoldable pub survey_loop : ℕ → List ℤ → ℕ → List ℕ → ℕ → ℤ → ℕ → List ℕ → ℕ × List ℕ
survey_loop zero energy_dbm pool_count anchor_mask min_active threshold_dbm masked mask =
    (masked, mask)
survey_loop (suc fuel) energy_dbm pool_count anchor_mask min_active threshold_dbm masked mask =
    let worst = noisiest energy_dbm mask anchor_mask pool_count threshold_dbm in
    elim (ltb min_active (mask_active_count mask pool_count) && not (worst == pool_count)) [
      | true ↦
          survey_loop fuel energy_dbm pool_count anchor_mask min_active threshold_dbm (masked + 1)
            (mask_set mask worst false)
      | false ↦ (masked, mask)
    ]

-- Each round masks a channel of the pool, so `pool_count` rounds reach the exit.
unfoldable pub survey_mask : List ℤ → ℕ → List ℕ → ℕ → ℤ → List ℕ → ℕ × List ℕ
unfolding survey_loop
survey_mask energy_dbm pool_count anchor_mask min_active threshold_dbm mask =
    survey_loop (suc pool_count) energy_dbm pool_count anchor_mask min_active threshold_dbm 0 mask
