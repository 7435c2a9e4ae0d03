-- ===== src/HopCentral/Invariant/Kept.antt =====
-- src/hop_central.c: no tick and no packet changes the anchor mask.
use zmk_feature_split_esb.Prelude.{
  ℕ, zero, suc, ◌+◌, ◌%◌, ◌≡◌, if◌then◌else◌, Bool, true, false, leb, ◌==◌, List, length, arith,
  if_either, if_true,
}
use mathlib.Core.Path.{subst, sym}
use zmk_feature_split_esb.Prelude.Int.{ℤ}
use zmk_feature_split_esb.Keepalive.Codec.{keepalive_matches, state_of, keepalive_is_active}
use zmk_feature_split_esb.HopPolicy.Mask.{mask_get}
use zmk_feature_split_esb.HopPolicy.Vote.{hop_vote}
use zmk_feature_split_esb.HopCentral.State.{
  CentralConfig, Central, Surroundings, pipe_count, apply_hop_channel,
}
use zmk_feature_split_esb.HopCentral.Mask.{
  ensure_mask, commit_pending_mask, serve_channel, rest_channel, age_channels, mask_channel,
  mask_worst, recompute_mask,
}
use zmk_feature_split_esb.HopCentral.Beacon.{Staged, stage_beacon, stage_mask_update}
use zmk_feature_split_esb.HopCentral.Decision.{
  clear_pipe_loss, hop_to_next_epoch, escape_silent_channel, score_current_channel, note_silence,
  hop_if_due, window_step, decision_tick,
}
use zmk_feature_split_esb.HopCentral.Receive.{consume_rx}

module _ (c : CentralConfig) (anchors : List ℕ) where
  -- The masks are made, and the anchor mask is `anchors`.
  pub record IsKept (p : Central) : Type 0 where
    pub ready : p.mask_ready ≡ true
    pub same : p.anchor_mask ≡ anchors

  apply_hop_channel-IsKept :
      (tunes : Bool) (p : Central) → IsKept p → IsKept (apply_hop_channel tunes p)
  unfolding apply_hop_channel
  apply_hop_channel-IsKept tunes p v =
      if_either IsKept (p.hop_index == p.applied_index) v
        (if_either IsKept tunes (record { ready = v.ready; same = v.same }) v)

  commit_pending_mask-IsKept : (p : Central) → IsKept p → IsKept (commit_pending_mask p)
  unfolding commit_pending_mask
  commit_pending_mask-IsKept p v =
      if_either IsKept p.pending_valid (record { ready = v.ready; same = v.same }) v

  hop_to_next_epoch-IsKept :
      (tunes : Bool) (p : Central) → IsKept p → IsKept (hop_to_next_epoch c tunes p)
  unfolding hop_to_next_epoch clear_pipe_loss
  hop_to_next_epoch-IsKept tunes p v =
      let w = commit_pending_mask-IsKept p v in
      let on = apply_hop_channel-IsKept tunes _ (record { ready = w.ready; same = w.same }) in
      record { ready = on.ready; same = on.same }

  hop_if_due-IsKept : (tunes : Bool) (p : Central) → IsKept p → IsKept (hop_if_due c tunes p)
  unfolding hop_if_due escape_silent_channel
  hop_if_due-IsKept tunes p v =
      let q : Central =
        if hop_vote p.pipe_loss c.pipe_weights (pipe_count c) c.vote_threshold
        then hop_to_next_epoch c tunes p
        else p in
      let escaping : Central = record q {
        silent_escapes = (q.silent_escapes + 1) % 256;
        silent_windows = 0;
      } in
      let voted : IsKept q =
        if_either IsKept (hop_vote p.pipe_loss c.pipe_weights (pipe_count c) c.vote_threshold)
          (hop_to_next_epoch-IsKept tunes p v) v in
      if_either IsKept _
        (hop_to_next_epoch-IsKept tunes escaping
          (record { ready = voted.ready; same = voted.same }))
        voted

  serve_channel-IsKept :
      (active channel : ℕ) (p : Central) → IsKept p → IsKept (serve_channel c active channel p)
  unfolding serve_channel
  serve_channel-IsKept active channel p v = record {
    ready = ground (arith, v.ready);
    same = ground (arith, v.same);
  }

  rest_channel-IsKept : (channel : ℕ) (p : Central) → IsKept p → IsKept (rest_channel c channel p).1
  unfolding rest_channel
  rest_channel-IsKept channel p v = record {
    ready = ground (arith, v.ready);
    same = ground (arith, v.same);
  }

  age_channels-IsKept :
      (active n channel : ℕ) (changed : Bool) (p : Central)
      → IsKept p
      → IsKept (age_channels c active n channel changed p).1
  unfolding age_channels
  age_channels-IsKept active zero channel changed p v = v
  age_channels-IsKept active (suc n) channel changed p v =
      age_channels-IsKept active n (suc channel) _ _ (
        if_either IsKept (mask_get p.pending_mask channel) (serve_channel-IsKept active channel p v)
          (rest_channel-IsKept channel p v))

  mask_worst-IsKept : (changed : Bool) (p : Central) → IsKept p → IsKept (mask_worst c changed p).1
  unfolding mask_worst mask_channel
  mask_worst-IsKept changed p v = record {
    ready = ground (arith, v.ready);
    same = ground (arith, v.same);
  }

  ensure_mask-IsKept : (p : Central) → IsKept p → IsKept (ensure_mask c p)
  unfolding ensure_mask
  ensure_mask-IsKept p v = subst IsKept (sym (if_true p _ v.ready)) v

  recompute_mask-IsKept : (active : ℕ) (p : Central) → IsKept p → IsKept (recompute_mask c active p)
  unfolding recompute_mask
  recompute_mask-IsKept active p v =
      let (back, aged) = age_channels c active c.hop_count 0 false (ensure_mask c p) in
      let kept : IsKept aged =
        age_channels-IsKept active c.hop_count 0 false (ensure_mask c p) (ensure_mask-IsKept p v) in
      let w = mask_worst-IsKept back aged kept in
      if_either IsKept (mask_worst c back aged).0 (record { ready = w.ready; same = w.same }) w

  score_current_channel-IsKept :
      (motion active : ℕ) (p : Central)
      → IsKept p
      → IsKept (score_current_channel c motion active p)
  unfolding score_current_channel
  score_current_channel-IsKept motion active p v =
      if_either IsKept (active == 0) v (record { ready = v.ready; same = v.same })

  note_silence-IsKept : (heard : ℕ) (p : Central) → IsKept p → IsKept (note_silence heard p)
  unfolding note_silence
  note_silence-IsKept heard p v =
      if_either IsKept (heard == 0) (record { ready = v.ready; same = v.same })
        (record { ready = v.ready; same = v.same })

  window_step-IsKept : (s : Surroundings) (p : Central) → IsKept p → IsKept (window_step c s p)
  unfolding window_step
  window_step-IsKept s p v =
      let scored =
        score_current_channel-IsKept p.pipe_motion_mask p.pipe_active_mask _
          (record { ready = v.ready; same = v.same }) in
      let masked = recompute_mask-IsKept p.pipe_active_mask _ scored in
      hop_if_due-IsKept s.tunes _ (
        note_silence-IsKept p.pipe_heard_mask _
          (record { ready = masked.ready; same = masked.same }))

  pub decision_tick-IsKept :
      (s : Surroundings) (p : Central) → IsKept p → IsKept (decision_tick c s p).1
  unfolding decision_tick stage_beacon stage_mask_update
  decision_tick-IsKept s p v =
      let w = window_step-IsKept s p v in
      if_either (λ (r : List Staged × Central). IsKept r.1) (leb c.hop_count 1)
        (record { ready = v.ready; same = v.same }) (record { ready = w.ready; same = w.same })

  pub consume_rx-IsKept :
      (uptime_ms : ℕ) (poll : Bool) (pipe : ℕ) (packet : List ℕ) (rssi : ℤ) (p : Central)
      → IsKept p
      → IsKept (consume_rx c uptime_ms poll pipe packet rssi p).1
  unfolding consume_rx
  consume_rx-IsKept uptime_ms poll pipe packet rssi p v =
      let Keeps = λ (r : Bool × Central). IsKept r.1 in
      if_either Keeps (leb (pipe_count c) pipe) v (
        if_either Keeps poll (record { ready = v.ready; same = v.same })
          (if_either Keeps (leb c.hop_count 1) (record { ready = v.ready; same = v.same })
            (if_either Keeps (keepalive_matches packet (length packet))
              (if_either IsKept (keepalive_is_active (state_of packet))
                (record { ready = v.ready; same = v.same })
                (record { ready = v.ready; same = v.same }))
              (record { ready = v.ready; same = v.same }))))
