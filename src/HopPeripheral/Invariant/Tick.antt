-- ===== src/HopPeripheral/Invariant/Tick.antt =====
-- A tick of src/hop_peripheral.c and a boot from the retained RAM keep the invariant.
use zmk_feature_split_esb.Prelude.{
  if_either, if_split, ℕ, zero, suc, ◌+◌, ◌%◌, ◌^◌, ◌<◌, ◌≡◌, refl, Bool, true, false, not, ltb,
  ◌==◌, Option, none, some, List, length, arith, ◌∙◌,
}
use native.Mathlib.Nat.{mod-le}
use zmk_feature_split_esb.HopPolicy.Mask.{mask_set, length-mask_set}
use zmk_feature_split_esb.HopPolicy.Channel.{
  index_next, index_next_active, channel_for_epoch_masked,
}
use zmk_feature_split_esb.HopPolicy.Channel.Laws.{channel_for_epoch_masked-lt, index_next_active-lt}
use zmk_feature_split_esb.SpscLatch.{peek}
use zmk_feature_split_esb.HopPeripheral.State.{Config, mask_bytes, sweep_dwell, Peripheral}
use zmk_feature_split_esb.HopPeripheral.Step.{
  adopt_slot, apply_hop_channel, set_channels, ensure_mask, adopt_staged_mask, adopt_epoch,
  connected_window, degrade_hop, lost_window, hop_window, keepalive_tick, settle_link_state,
  retain_link_state, clear_window_attempts, hop_restore, is_retained,
}
use zmk_feature_split_esb.HopPeripheral.Invariant.{
  IsConfig, IsValid, Keeps, mod_below, get_or-All, with_index, with_undo, with_sweep, with_active,
}

length-set_channels :
    (n channel : ℕ) (mask : List ℕ) → length (set_channels n channel mask) ≡ length mask
unfolding set_channels
length-set_channels zero channel mask = refl
length-set_channels (suc n) channel mask = omega (
  arith,
  length-set_channels n (suc channel) (mask_set mask channel true),
  length-mask_set mask channel true,
)

module _ (c : Config) (ok : IsConfig c) where
  apply_hop_channel-IsValid : (tunes : Bool) → Keeps c (apply_hop_channel tunes)
  unfolding apply_hop_channel
  apply_hop_channel-IsValid tunes p v =
      if_either (IsValid c) (p.hop_index == p.applied_index) v
        (if_either (IsValid c) tunes (record { shape = v.shape }) v)

  ensure_mask-IsValid : Keeps c (ensure_mask c)
  unfolding ensure_mask
  ensure_mask-IsValid p v = if_either (IsValid c) p.mask_ready v (record {
    shape =
        with_active v.shape (length-set_channels c.hop_count 0 p.active_mask ∙ v.shape.active_size);
  })

  adopt_slot-IsValid : (slot : Option ℕ) → Keeps c (adopt_slot slot)
  unfolding adopt_slot
  adopt_slot-IsValid none p v = v
  adopt_slot-IsValid (some slot) p v = record {
    shape = with_active v.shape (
        get_or-All (λ m. length m ≡ mask_bytes c) p.staged_mask_pool slot p.active_mask
          v.shape.pool_size v.shape.active_size);
  }

  adopt_staged_mask-IsValid : Keeps c adopt_staged_mask
  unfolding adopt_staged_mask
  adopt_staged_mask-IsValid p v = adopt_slot-IsValid (peek p.staged_mask_latch) p v

  adopt_epoch-IsValid : (tunes : Bool) (epoch : ℕ) → Keeps c (adopt_epoch c tunes epoch)
  unfolding adopt_epoch clear_window_attempts
  adopt_epoch-IsValid tunes epoch p v =
      let q = adopt_staged_mask (record p { adopted_epoch = epoch }) in
      let w : IsValid c q =
        adopt_staged_mask-IsValid (record p { adopted_epoch = epoch })
          (record { shape = v.shape }) in
      let i = channel_for_epoch_masked epoch q.active_mask c.hop_count in
      let l : i < c.hop_count =
        channel_for_epoch_masked-lt q.active_mask c.hop_count (omega (arith, ok.hops))
          (omega (arith, ok.few)) epoch in
      let t =
        apply_hop_channel-IsValid tunes (record q { hop_index = i })
          (record { shape = with_index w.shape l }) in
      record { shape = with_sweep t.shape (omega arith) }

  degrade_hop-IsValid : (tunes : Bool) → Keeps c (degrade_hop c tunes)
  unfolding degrade_hop
  degrade_hop-IsValid tunes p v =
      let l : index_next_active p.hop_index p.active_mask c.hop_count < c.hop_count =
        index_next_active-lt p.active_mask c.hop_count (omega (arith, ok.hops))
          (omega (arith, ok.few)) p.hop_index v.shape.index in
      apply_hop_channel-IsValid tunes _
        (record { shape = with_index (with_undo v.shape v.shape.index) l })

  connected_window-IsValid : (tunes : Bool) → Keeps c (connected_window c tunes)
  unfolding connected_window clear_window_attempts
  connected_window-IsValid tunes p v =
      let w : (e b : ℕ)
          → IsValid c (record (clear_window_attempts p) {
            sweep_windows = 0;
            degrade_undo_armed = false;
            attempts_ewma_x10 = e;
            bad_windows = b;
          }) =
        λ e b. record { shape = with_sweep v.shape (omega arith) } in
      if_either (IsValid c) _ (degrade_hop-IsValid tunes _ (w _ _)) (w _ _)

  lost_window-IsValid : (tunes : Bool) → Keeps c (lost_window c tunes)
  unfolding lost_window clear_window_attempts index_next
  lost_window-IsValid tunes p v =
      let dwell = sweep_dwell c.idle_keepalive_ms c.hop_window_ms in
      let l : (p.sweep_windows + 1) % dwell % 2 ^ 16 < dwell = omega (
        arith,
        mod_below (p.sweep_windows + 1) dwell (omega arith),
        ok.dwell,
        mod-le ((p.sweep_windows + 1) % dwell) (2 ^ 16),
      ) in
      let next_lt : (p.hop_index + 1) % c.hop_count % 256 < c.hop_count = omega (
        arith,
        mod_below (p.hop_index + 1) c.hop_count (omega (arith, ok.hops)),
        mod-le ((p.hop_index + 1) % c.hop_count) 256,
      ) in
      let w = with_sweep v.shape l in
      if_either (IsValid c) p.degrade_undo_armed
        (apply_hop_channel-IsValid tunes _ (record { shape = with_index w v.shape.undo }))
        (if_either (IsValid c) _
          (apply_hop_channel-IsValid tunes _ (record { shape = with_index w next_lt }))
          (record { shape = w }))

  hop_window-IsValid : (tunes : Bool) → Keeps c (hop_window c tunes)
  unfolding hop_window
  hop_window-IsValid tunes p v = if_either (IsValid c) _ (adopt_epoch-IsValid tunes _ p v) (
      if_either (IsValid c) p.link_acked (connected_window-IsValid tunes p v)
        (lost_window-IsValid tunes p v))

  settle_link_state-IsValid : Keeps c settle_link_state
  unfolding settle_link_state
  settle_link_state-IsValid p v = record { shape = v.shape }

  retain_link_state-IsValid : Keeps c (retain_link_state c)
  unfolding retain_link_state
  retain_link_state-IsValid p v = record {
    shape = record {
      index = v.shape.index;
      undo = v.shape.undo;
      sweep = v.shape.sweep;
      within = v.shape.within;
      active_size = v.shape.active_size;
      kept_size = v.shape.active_size;
      pool_size = v.shape.pool_size;
    };
  }

  -- Every tick keeps the invariant: whatever the radio answers and whichever of the three kinds of
  -- window it was, the channel index and the way back stay in the pool, the sweep counter stays
  -- below its dwell, the retransmit ceiling within the configured count and the masks keep their
  -- size.
  pub keepalive_tick-IsValid :
      (tunes : Bool) (p : Peripheral) → IsValid c p → IsValid c (keepalive_tick c tunes p).0
  unfolding keepalive_tick
  keepalive_tick-IsValid tunes p v =
      let s = settle_link_state-IsValid p v in
      let h = hop_window-IsValid tunes _ (ensure_mask-IsValid _ s) in
      let w =
        if_either (IsValid c) (ltb 1 c.hop_count)
          (if_either (IsValid c)
            (hop_window c tunes (ensure_mask c (settle_link_state p))).link_acked
            (retain_link_state-IsValid _ h) h)
          s in
      record { shape = w.shape }

  -- A boot from the retained RAM, whatever the RAM holds, gives a valid state: an index outside the
  -- pool is not taken.
  pub hop_restore-IsValid : (p : Peripheral) → IsValid c p → IsValid c (hop_restore c p)
  unfolding hop_restore is_retained
  hop_restore-IsValid p v =
      let r = p.retained_link in
      let w = ensure_mask-IsValid p v in
      if_either (IsValid c) _ v (
        if_split (IsValid c) (not (is_retained c r)) (λ _. v)
          (λ e.
            let l : r.hop_index < c.hop_count = ground arith in
            record { shape = with_index (with_active w.shape v.shape.kept_size) l }))
