-- ===== src/HopCentral/Invariant/Boot.antt =====
-- src/hop_central.c: the boot, from the variables as they are loaded, gives the invariant.
use mathlib.Core.Path.{subst}
use zmk_feature_split_esb.Prelude.{
  ℕ, zero, suc, ◌+◌, ◌/◌, ◌%◌, ◌<◌, ◌≡◌, refl, sym, ◌∙◌, ap, ◌⊎◌, inl, inr, true, false, ◌&&◌, not,
  leb, List, length, arith, if_false, if_either, if_split,
}
use zmk_feature_split_esb.Prelude.Int.{ℤ}
use zmk_feature_split_esb.HopPolicy.Mask.{mask_get, mask_set, length-mask_set, mask_get-mask_set}
use zmk_feature_split_esb.HopPolicy.Channel.{channel_for_epoch_masked, channel_for_epoch}
use zmk_feature_split_esb.HopPolicy.Channel.Laws.{channel_for_epoch_masked-base}
use zmk_feature_split_esb.HopPolicy.Survey.{survey_mask}
use zmk_feature_split_esb.HopPolicy.Survey.Laws.{IsLoud, survey_mask-IsSurveyed}
use zmk_feature_split_esb.HopCentral.State.{CentralConfig, Central}
use zmk_feature_split_esb.HopCentral.Mask.{enter_channels, ensure_mask, recall_mask, hop_boot_mask}
use zmk_feature_split_esb.HopCentral.Invariant.{
  IsPool, mask_bytes, IsMask, IsSound, mask_drop-IsMask,
}

-- The variables before the boot, with the channels below `channel` entered: epoch and index are 0.
pub record IsLoaded (c : CentralConfig) (channel : ℕ) (p : Central) : Type 0 where
  pub index : p.hop_index ≡ 0
  pub epoch : p.hop_epoch ≡ 0
  pub active_size : length p.active_mask ≡ mask_bytes c
  pub pending_size : length p.pending_mask ≡ mask_bytes c
  pub active_in : (k : ℕ) → k < channel → mask_get p.active_mask k ≡ true
  pub pending_in : (k : ℕ) → k < channel → mask_get p.pending_mask k ≡ true

module _ (c : CentralConfig) (ok : IsPool c) where
  entered :
      (mask : List ℕ) (channel : ℕ)
      → length mask ≡ mask_bytes c
      → channel < c.hop_count
      → ((k : ℕ) → k < channel → mask_get mask k ≡ true)
      → (k : ℕ) → k < suc channel
      → mask_get (mask_set mask channel true) k ≡ true
  entered mask channel size l h k m =
      let there : channel / 8 < length mask = omega (arith, size) in
      ground (arith, mask_get-mask_set mask channel k true there, h k)

  enter_channels-IsLoaded :
      (n channel : ℕ) (p : Central)
      → channel + n ≡ c.hop_count
      → IsLoaded c channel p
      → IsLoaded c c.hop_count (enter_channels c n channel p)
  unfolding enter_channels
  enter_channels-IsLoaded zero channel p e v = subst (λ k. IsLoaded c k p) (omega (arith, e)) v
  enter_channels-IsLoaded (suc n) channel p e v =
      enter_channels-IsLoaded n (suc channel) _ (omega (arith, e)) (record {
        index = v.index;
        epoch = v.epoch;
        active_size = length-mask_set p.active_mask channel true ∙ v.active_size;
        pending_size = length-mask_set p.pending_mask channel true ∙ v.pending_size;
        active_in = entered p.active_mask channel v.active_size (omega (arith, e)) v.active_in;
        pending_in = entered p.pending_mask channel v.pending_size (omega (arith, e)) v.pending_in;
      })

  ensure_mask-IsLoaded :
      (p : Central)
      → p.mask_ready ≡ false
      → IsLoaded c 0 p
      → IsLoaded c c.hop_count (ensure_mask c p) × ((ensure_mask c p).mask_ready ≡ true)
  unfolding ensure_mask
  ensure_mask-IsLoaded p fresh v =
      let w = enter_channels-IsLoaded c.hop_count 0 p (omega arith) v in
      subst (λ (q : Central). IsLoaded c c.hop_count q × (q.mask_ready ≡ true))
        (sym (if_false p _ fresh))
        (
          record {
            index = w.index;
            epoch = w.epoch;
            active_size = w.active_size;
            pending_size = w.pending_size;
            active_in = w.active_in;
            pending_in = w.pending_in;
          },
          refl,
        )

  full-IsMask :
      (anchors mask : List ℕ)
      → length mask ≡ mask_bytes c
      → ((k : ℕ) → k < c.hop_count → mask_get mask k ≡ true)
      → IsMask c 0 anchors mask
  full-IsMask anchors mask size all = record {
    size = size;
    anchored = λ k l. inr (all k l);
    enough = omega arith;
  }

  recall_mask-IsMask :
      (persisted anchors : List ℕ) (n channel : ℕ) (mask : List ℕ)
      → channel + n ≡ c.hop_count
      → IsMask c 0 anchors mask
      → IsMask c 0 anchors (recall_mask persisted anchors n channel mask)
  unfolding recall_mask
  recall_mask-IsMask persisted anchors zero channel mask e v = v
  recall_mask-IsMask persisted anchors (suc n) channel mask e v =
      recall_mask-IsMask persisted anchors n (suc channel) _ (omega (arith, e)) (
        if_split (IsMask c 0 anchors)
          (not (mask_get persisted channel) && not (mask_get anchors channel))
          (λ h.
            mask_drop-IsMask c ok 0 anchors mask v channel (omega (arith, e)) (ground (arith, h)))
          (λ _. v))

  survey_mask-IsMask :
      (energy_dbm : List ℤ) (anchors mask : List ℕ)
      → IsMask c 0 anchors mask
      → IsMask c 0 anchors
          (survey_mask energy_dbm c.hop_count anchors c.min_active c.survey_threshold_dbm mask).1
  survey_mask-IsMask energy_dbm anchors mask v =
      let s =
        survey_mask-IsSurveyed energy_dbm c.hop_count anchors c.survey_threshold_dbm c.min_active
          mask (omega (arith, v.size)) in
      record {
        size = s.same_size ∙ v.size;
        anchored = λ k l. kept _ k (v.anchored k l) (s.cleared_noisy k);
        enough = omega arith;
      }
    where
      kept :
          (after : List ℕ) (k : ℕ)
          → (mask_get anchors k ≡ false) ⊎ (mask_get mask k ≡ true)
          → (mask_get after k ≡ mask_get mask k)
            ⊎ ((mask_get after k ≡ false)
                × IsLoud energy_dbm c.hop_count anchors c.survey_threshold_dbm mask k)
          → (mask_get anchors k ≡ false) ⊎ (mask_get after k ≡ true)
      kept after k (inl e) s = inl e
      kept after k (inr e) (inl f) = inr (f ∙ e)
      kept after k (inr e) (inr (f, (free, active, loud))) = inl free

  zero-epoch :
      (mask : List ℕ)
      → ((k : ℕ) → k < c.hop_count → mask_get mask k ≡ true)
      → channel_for_epoch_masked 0 mask c.hop_count ≡ 0
  unfolding channel_for_epoch
  zero-epoch mask all =
      channel_for_epoch_masked-base mask c.hop_count (omega (arith, ok.hops))
        (omega (arith, ok.few)) 0 (inl (all (0 % c.hop_count) (omega (arith, ok.hops))))
      ∙ omega (arith, ok.hops)

  -- A boot on a hopping link, from the variables as they are loaded, whatever masks were saved and
  -- whatever the survey measured, gives the invariant with no floor of active channels: every anchor
  -- is active, and the index is the epoch's channel.
  pub hop_boot_mask-IsSound :
      (energy_dbm : List ℤ) (p : Central)
      → 1 < c.hop_count
      → p.mask_ready ≡ false
      → IsLoaded c 0 p
      → IsSound c 0 (hop_boot_mask c energy_dbm p)
  unfolding hop_boot_mask
  hop_boot_mask-IsSound energy_dbm p hopping fresh v =
      let q = ensure_mask c p in
      let (w, ready) = ensure_mask-IsLoaded p fresh v in
      let active = full-IsMask q.anchor_mask q.active_mask w.active_size w.active_in in
      let recalled =
        if_either (IsMask c 0 q.anchor_mask) q.persisted_mask_valid
          (recall_mask-IsMask q.persisted_mask q.anchor_mask c.hop_count 0 q.pending_mask
            (omega arith) (full-IsMask q.anchor_mask q.pending_mask w.pending_size w.pending_in))
          (full-IsMask q.anchor_mask q.pending_mask w.pending_size w.pending_in) in
      let surveyed = survey_mask-IsMask energy_dbm q.anchor_mask _ recalled in
      let start : q.hop_index ≡ channel_for_epoch_masked q.hop_epoch q.active_mask c.hop_count =
        w.index
        ∙ sym (
            ap (λ e. channel_for_epoch_masked e q.active_mask c.hop_count) w.epoch
            ∙ zero-epoch q.active_mask w.active_in) in
      if_split (IsSound c 0) (leb c.hop_count 1) (λ e. absurd (ground (arith, e, hopping)))
        (λ _.
          if_either (IsSound c 0) _
            (record {
              ready = ready;
              state = record { index = start; active_is = active; pending_is = surveyed };
            })
            (record {
              ready = ready;
              state = record { index = refl; active_is = surveyed; pending_is = surveyed };
            }))
