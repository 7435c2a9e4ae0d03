-- ===== src/HopCentral/Invariant/Mask.antt =====
-- src/hop_central.c: the recomputed mask keeps the invariant.
use zmk_feature_split_esb.Prelude.{
  if_either, if_true, ℕ, zero, suc, ◌+◌, ◌%◌, ◌^◌, ◌≤◌, ◌<◌, ◌≡◌, inl, inr, Bool, true, false, ◌&&◌,
  ltb, leb, List, arith, Bool-cases, get_or,
}
use mathlib.Core.Path.{subst, sym}
use zmk_feature_split_esb.HopPolicy.Grade.{retest_threshold}
use zmk_feature_split_esb.HopPolicy.Mask.{mask_get, mask_active_count}
use zmk_feature_split_esb.HopPolicy.Survey.{worst_channel, is_bad}
use zmk_feature_split_esb.HopPolicy.Survey.Laws.{worst_channel-IsWorst}
use zmk_feature_split_esb.HopCentral.State.{CentralConfig, Central}
use zmk_feature_split_esb.HopCentral.Mask.{
  ensure_mask, serve_channel, rest_channel, age_channels, mask_channel, mask_worst, recompute_mask,
}
use zmk_feature_split_esb.HopCentral.Invariant.{
  IsPool, IsMask, IsOnEpoch, IsSound, mask_set-IsMask, mask_clear-IsMask,
}

module _ (c : CentralConfig) (ok : IsPool c) (floor : ℕ) (low : floor ≤ c.min_active) where
  with_pending :
      {i e : ℕ} {active pending anchors mask : List ℕ}
      → IsOnEpoch c floor i e active pending anchors
      → IsMask c floor anchors mask
      → IsOnEpoch c floor i e active mask anchors
  with_pending v m = record { index = v.index; active_is = v.active_is; pending_is = m }

  serve_channel-IsSound :
      (active channel : ℕ) (p : Central)
      → IsSound c floor p
      → IsSound c floor (serve_channel c active channel p)
  unfolding serve_channel
  serve_channel-IsSound active channel p v =
      if_either (IsSound c floor) _
        (if_either (IsSound c floor) _ (record { ready = v.ready; state = v.state })
          (record { ready = v.ready; state = v.state }))
        v

  rest_channel-IsSound :
      (channel : ℕ) (p : Central)
      → channel < c.hop_count
      → IsSound c floor p
      → IsSound c floor (rest_channel c channel p).1
  unfolding rest_channel
  rest_channel-IsSound channel p h v =
      let m =
        mask_set-IsMask c ok floor p.anchor_mask p.pending_mask v.state.pending_is channel h in
      elim (Bool-cases (
        leb (retest_threshold c.restore_windows (get_or p.channel_retest_level channel 0))
          ((get_or p.channel_masked_windows channel 0 + 1) % 2 ^ 16))) [
            | inl e ↦ rw (e) (record { ready = v.ready; state = with_pending v.state m })
            | inr e ↦ rw (e) (record { ready = v.ready; state = v.state })
          ]

  age_channels-IsSound :
      (active n channel : ℕ) (changed : Bool) (p : Central)
      → channel + n ≤ c.hop_count
      → IsSound c floor p
      → IsSound c floor (age_channels c active n channel changed p).1
  unfolding age_channels
  age_channels-IsSound active zero channel changed p h v = v
  age_channels-IsSound active (suc n) channel changed p h v =
      age_channels-IsSound active n (suc channel) _ _ (omega arith) (
        if_either (IsSound c floor) (mask_get p.pending_mask channel)
          (serve_channel-IsSound active channel p v)
          (rest_channel-IsSound channel p (omega arith) v))

  is_bad-free :
      (channel_bad mask anchors : List ℕ) (threshold k : ℕ)
      → is_bad channel_bad mask anchors threshold k ≡ true
      → mask_get anchors k ≡ false
  unfolding is_bad
  is_bad-free channel_bad mask anchors threshold k h = ground arith

  worst_channel-free :
      (channel_bad mask anchors : List ℕ)
      → worst_channel channel_bad mask anchors c.hop_count c.mask_threshold < c.hop_count
      → mask_get anchors (worst_channel channel_bad mask anchors c.hop_count c.mask_threshold)
        ≡ false
  worst_channel-free channel_bad mask anchors h =
      elim (worst_channel-IsWorst channel_bad mask anchors c.hop_count c.mask_threshold) [
        | inl (e, _) ↦ absurd (omega (arith, e, h))
        | inr (_, q, _) ↦ is_bad-free channel_bad mask anchors c.mask_threshold _ q
      ]

  mask_worst-IsSound :
      (changed : Bool) (p : Central)
      → IsSound c floor p
      → IsSound c floor (mask_worst c changed p).1
  unfolding mask_worst mask_channel
  mask_worst-IsSound changed p v =
      let worst =
        worst_channel p.channel_bad p.pending_mask p.anchor_mask c.hop_count c.mask_threshold in
      elim (Bool-cases (
        ltb c.min_active (mask_active_count p.pending_mask c.hop_count) && ltb worst c.hop_count)) [
          | inl e ↦
              let l : worst < c.hop_count = ground arith in
              let more : floor < mask_active_count p.pending_mask c.hop_count =
                ground (arith, low) in
              let free = worst_channel-free p.channel_bad p.pending_mask p.anchor_mask l in
              let m =
                mask_clear-IsMask c ok floor p.anchor_mask p.pending_mask v.state.pending_is worst l
                  free more in
              rw (e) (record { ready = v.ready; state = with_pending v.state m })
          | inr e ↦ rw (e) v
        ]

  pub ensure_mask-IsSound : (p : Central) → IsSound c floor p → IsSound c floor (ensure_mask c p)
  unfolding ensure_mask
  ensure_mask-IsSound p v = subst (IsSound c floor) (sym (if_true p _ v.ready)) v

  pub recompute_mask-IsSound :
      (active : ℕ) (p : Central) → IsSound c floor p → IsSound c floor (recompute_mask c active p)
  unfolding recompute_mask
  recompute_mask-IsSound active p v =
      let aged =
        age_channels-IsSound active c.hop_count 0 false (ensure_mask c p) (omega arith)
          (ensure_mask-IsSound p v) in
      let w =
        mask_worst-IsSound (age_channels c active c.hop_count 0 false (ensure_mask c p)).0 _ aged in
      if_either (IsSound c floor) _ (record { ready = w.ready; state = w.state }) w
