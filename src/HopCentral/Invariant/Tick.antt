-- ===== src/HopCentral/Invariant/Tick.antt =====
-- src/hop_central.c: a tick keeps the invariant.
use zmk_feature_split_esb.Prelude.{ℕ, ◌≤◌, ◌≡◌, refl, Bool, true, false, leb, ◌==◌, List, if_either}
use zmk_feature_split_esb.HopPolicy.Vote.{hop_vote}
use zmk_feature_split_esb.HopCentral.State.{
  CentralConfig, Central, Surroundings, pipe_count, apply_hop_channel,
}
use zmk_feature_split_esb.HopCentral.Mask.{commit_pending_mask}
use zmk_feature_split_esb.HopCentral.Beacon.{Staged, stage_beacon, stage_mask_update}
use zmk_feature_split_esb.HopCentral.Decision.{
  clear_pipe_loss, hop_to_next_epoch, escape_silent_channel, score_current_channel, note_silence,
  hop_if_due, window_step, decision_tick,
}
use zmk_feature_split_esb.HopCentral.Invariant.{IsPool, IsMask, IsSound}
use zmk_feature_split_esb.HopCentral.Invariant.Mask.{recompute_mask-IsSound}

module _ (c : CentralConfig) (ok : IsPool c) (floor : ℕ) (low : floor ≤ c.min_active) where
  apply_hop_channel-IsSound :
      (tunes : Bool) (p : Central) → IsSound c floor p → IsSound c floor (apply_hop_channel tunes p)
  unfolding apply_hop_channel
  apply_hop_channel-IsSound tunes p v =
      let tuned : IsSound c floor (record p { applied_index = p.hop_index }) = record {
        ready = v.ready;
        state = v.state;
      } in
      if_either (IsSound c floor) (p.hop_index == p.applied_index) v
        (if_either (IsSound c floor) tunes tuned v)

  -- What of the invariant a commit keeps by itself.
  record HasMasks (p : Central) : Type 0 where
    ready : p.mask_ready ≡ true
    active_is : IsMask c floor p.anchor_mask p.active_mask
    pending_is : IsMask c floor p.anchor_mask p.pending_mask

  commit_pending_mask-HasMasks :
      (p : Central) → IsSound c floor p → HasMasks (commit_pending_mask p)
  unfolding commit_pending_mask
  commit_pending_mask-HasMasks p v =
      let held : HasMasks p = record {
        ready = v.ready;
        active_is = v.state.active_is;
        pending_is = v.state.pending_is;
      } in
      let committed : HasMasks (record p { active_mask = p.pending_mask; pending_valid = false }) =
        record {
          ready = v.ready;
          active_is = v.state.pending_is;
          pending_is = v.state.pending_is;
        } in
      if_either HasMasks p.pending_valid committed held

  hop_to_next_epoch-IsSound :
      (tunes : Bool) (p : Central)
      → IsSound c floor p
      → IsSound c floor (hop_to_next_epoch c tunes p)
  unfolding hop_to_next_epoch clear_pipe_loss
  hop_to_next_epoch-IsSound tunes p v =
      let w = commit_pending_mask-HasMasks p v in
      let on = apply_hop_channel-IsSound tunes _ (record {
        ready = w.ready;
        state = record { index = refl; active_is = w.active_is; pending_is = w.pending_is };
      }) in
      record { ready = on.ready; state = on.state }

  score_current_channel-IsSound :
      (motion active : ℕ) (p : Central)
      → IsSound c floor p
      → IsSound c floor (score_current_channel c motion active p)
  unfolding score_current_channel
  score_current_channel-IsSound motion active p v =
      if_either (IsSound c floor) (active == 0) v (record { ready = v.ready; state = v.state })

  note_silence-IsSound :
      (heard : ℕ) (p : Central) → IsSound c floor p → IsSound c floor (note_silence heard p)
  unfolding note_silence
  note_silence-IsSound heard p v =
      if_either (IsSound c floor) (heard == 0) (record { ready = v.ready; state = v.state })
        (record { ready = v.ready; state = v.state })

  hop_if_due-IsSound :
      (tunes : Bool) (p : Central) → IsSound c floor p → IsSound c floor (hop_if_due c tunes p)
  unfolding hop_if_due escape_silent_channel
  hop_if_due-IsSound tunes p v =
      let voted =
        if_either (IsSound c floor)
          (hop_vote p.pipe_loss c.pipe_weights (pipe_count c) c.vote_threshold)
          (hop_to_next_epoch-IsSound tunes p v) v in
      if_either (IsSound c floor) _
        (hop_to_next_epoch-IsSound tunes _ (record { ready = voted.ready; state = voted.state }))
        voted

  window_step-IsSound :
      (s : Surroundings) (p : Central) → IsSound c floor p → IsSound c floor (window_step c s p)
  unfolding window_step
  window_step-IsSound s p v =
      let scored =
        score_current_channel-IsSound p.pipe_motion_mask p.pipe_active_mask _
          (record { ready = v.ready; state = v.state }) in
      let masked = recompute_mask-IsSound c ok floor low p.pipe_active_mask _ scored in
      hop_if_due-IsSound s.tunes _ (
        note_silence-IsSound p.pipe_heard_mask _
          (record { ready = masked.ready; state = masked.state }))

  stage_beacon-IsSound :
      (s : Surroundings) (heard : ℕ) (p : Central)
      → IsSound c floor p
      → IsSound c floor (stage_beacon c s heard p).1
  unfolding stage_beacon
  stage_beacon-IsSound s heard p v = record { ready = v.ready; state = v.state }

  stage_mask_update-IsSound :
      (s : Surroundings) (p : Central)
      → IsSound c floor p
      → IsSound c floor (stage_mask_update c s p).1
  unfolding stage_mask_update
  stage_mask_update-IsSound s p v = record { ready = v.ready; state = v.state }

  -- A tick keeps the invariant: the masks keep the anchors and at least `floor` channels, and the
  -- index is the epoch's channel on the active mask, whatever was heard and whether it hops or not.
  pub decision_tick-IsSound :
      (s : Surroundings) (p : Central) → IsSound c floor p → IsSound c floor (decision_tick c s p).1
  unfolding decision_tick
  decision_tick-IsSound s p v =
      if_either (λ (r : List Staged × Central). IsSound c floor r.1) (leb c.hop_count 1)
        (stage_beacon-IsSound s p.pipe_heard_mask _ (record { ready = v.ready; state = v.state }))
        (stage_mask_update-IsSound s _
          (stage_beacon-IsSound s p.pipe_heard_mask _ (window_step-IsSound s p v)))
