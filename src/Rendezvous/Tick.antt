-- ===== src/Rendezvous/Tick.antt =====
-- src/hop_peripheral.c: the tick that adopts a new epoch with a staged mask.
use mathlib.Core.Path.{subst}
use zmk_feature_split_esb.Prelude.{
  ℕ, ◌%◌, ◌<◌, ◌≡◌, ◌≢◌, refl, sym, ap, Bool, true, not, ltb, ◌==◌, Option, some, List, get_or,
  arith, if_true, if_either, if_split,
}
use zmk_feature_split_esb.SpscLatch.{peek}
use zmk_feature_split_esb.HopPolicy.Channel.{channel_for_epoch_masked}
use zmk_feature_split_esb.HopPeripheral.State.{Config, Peripheral}
use zmk_feature_split_esb.HopPeripheral.Step.{
  apply_hop_channel, ensure_mask, adopt_slot, adopt_staged_mask, clear_window_attempts, adopt_epoch,
  settle_link_state, hop_window, retain_link_state, keepalive_tick,
}

-- What a tick does with a staged mask and a new epoch.
pub record HasMet (c : Config) (epoch : ℕ) (mask : List ℕ) (q : Peripheral) : Type 0 where
  pub epoch_is : q.adopted_epoch ≡ epoch
  pub mask_is : q.active_mask ≡ mask
  pub index_is : q.hop_index ≡ channel_for_epoch_masked epoch mask c.hop_count

record HasAdopted (epoch : ℕ) (mask : List ℕ) (q : Peripheral) : Type 0 where
  pub epoch_is : q.adopted_epoch ≡ epoch
  pub mask_is : q.active_mask ≡ mask

module _ (c : Config) (tunes : Bool) (epoch : ℕ) (mask : List ℕ) where
  tuned-HasMet :
      (q : Peripheral) → HasMet c epoch mask q → HasMet c epoch mask (apply_hop_channel tunes q)
  unfolding apply_hop_channel
  tuned-HasMet q h =
      let tuned : HasMet c epoch mask (record q { applied_index = q.hop_index }) = record {
        epoch_is = h.epoch_is;
        mask_is = h.mask_is;
        index_is = h.index_is;
      } in
      if_either (HasMet c epoch mask) (q.hop_index == q.applied_index) h
        (if_either (HasMet c epoch mask) tunes tuned h)

  adopt_epoch-HasMet :
      (slot : ℕ) (q : Peripheral)
      → peek q.staged_mask_latch ≡ some slot
      → get_or q.staged_mask_pool slot q.active_mask ≡ mask
      → HasMet c epoch mask (adopt_epoch c tunes epoch q)
  unfolding adopt_epoch adopt_slot adopt_staged_mask clear_window_attempts
  adopt_epoch-HasMet slot q published stored =
      let adopted =
        ap (λ (o : Option ℕ). adopt_slot o (record q { adopted_epoch = epoch })) published in
      let start : HasAdopted epoch mask (adopt_staged_mask (record q { adopted_epoch = epoch })) =
        subst (HasAdopted epoch mask) (sym adopted)
          (record { epoch_is = refl; mask_is = stored }) in
      let h = tuned-HasMet _ (record {
        epoch_is = start.epoch_is;
        mask_is = start.mask_is;
        index_is = ap (λ (m : List ℕ). channel_for_epoch_masked epoch m c.hop_count) start.mask_is;
      }) in
      record { epoch_is = h.epoch_is; mask_is = h.mask_is; index_is = h.index_is }

  hop_window-HasMet :
      (slot : ℕ) (q : Peripheral)
      → q.beacon_epoch % 256 ≡ epoch
      → q.adopted_epoch ≢ epoch
      → peek q.staged_mask_latch ≡ some slot
      → get_or q.staged_mask_pool slot q.active_mask ≡ mask
      → HasMet c epoch mask (hop_window c tunes q)
  unfolding hop_window
  hop_window-HasMet slot q heard new published stored =
      if_split (HasMet c epoch mask) (not (q.beacon_epoch % 256 == q.adopted_epoch))
        (λ _.
          subst (λ e. HasMet c epoch mask (adopt_epoch c tunes e q)) (sym heard)
            (adopt_epoch-HasMet slot q published stored))
        (λ e. absurd (ground (arith, e, heard, new)))

  retain_link_state-HasMet :
      (q : Peripheral) → HasMet c epoch mask q → HasMet c epoch mask (retain_link_state c q)
  unfolding retain_link_state
  retain_link_state-HasMet q h = record {
    epoch_is = h.epoch_is;
    mask_is = h.mask_is;
    index_is = h.index_is;
  }

  pub keepalive_tick-HasMet :
      (slot : ℕ) (q : Peripheral)
      → 1 < c.hop_count
      → q.mask_ready ≡ true
      → q.beacon_epoch % 256 ≡ epoch
      → q.adopted_epoch ≢ epoch
      → peek q.staged_mask_latch ≡ some slot
      → get_or q.staged_mask_pool slot q.active_mask ≡ mask
      → HasMet c epoch mask (keepalive_tick c tunes q).0
  unfolding keepalive_tick ensure_mask settle_link_state
  keepalive_tick-HasMet slot q hopping ready heard new published stored =
      let settled = settle_link_state q in
      let stepped : HasMet c epoch mask (hop_window c tunes (ensure_mask c settled)) =
        subst (λ (r : Peripheral). HasMet c epoch mask (hop_window c tunes r))
          (sym (if_true settled _ ready))
          (hop_window-HasMet slot settled heard new published stored) in
      let h =
        if_split (HasMet c epoch mask) (ltb 1 c.hop_count)
          (λ _. if_either (HasMet c epoch mask) _ (retain_link_state-HasMet _ stepped) stepped)
          (λ e. absurd (ground (arith, e, hopping))) in
      record { epoch_is = h.epoch_is; mask_is = h.mask_is; index_is = h.index_is }
