-- ===== src/HopCentral/Decision.antt =====
-- src/hop_central.c: the tick that decides on hops.
use zmk_feature_split_esb.Prelude.{
  ℕ, zero, suc, ◌+◌, ◌%◌, ◌^◌, Bool, ◌&&◌, leb, ltb, ◌==◌, if◌then◌else◌, List, [], ◌++◌, get_or,
  set, replicate,
}
use zmk_feature_split_esb.Prelude.Bits.{test_bit, set_bit}
use zmk_feature_split_esb.HopPolicy.Grade.{score_update}
use zmk_feature_split_esb.HopPolicy.Channel.{channel_for_epoch_masked}
use zmk_feature_split_esb.HopPolicy.Vote.{window_penalty, accrue_loss, hop_vote}
use zmk_feature_split_esb.HopCentral.State.{
  CentralConfig, Central, Surroundings, pipe_count, silent_escape_windows, apply_hop_channel,
  pipe_needs_rendezvous,
}
use zmk_feature_split_esb.HopCentral.Mask.{commit_pending_mask, recompute_mask}
use zmk_feature_split_esb.HopCentral.Beacon.{
  Staged, stage_rejoin_beacon, stage_beacon, stage_mask_update,
}

-- CHANNEL_BAD_DECAY
abbrev pub channel_bad_decay : ℕ
channel_bad_decay = 1

-- `clear_pipe_loss` writes every entry of the array, which has one for each pipe.
unfoldable pub clear_pipe_loss : CentralConfig → Central → Central
clear_pipe_loss c p = record p { pipe_loss = replicate (pipe_count c) 0 }

unfoldable pub hop_to_next_epoch : CentralConfig → Bool → Central → Central
unfolding commit_pending_mask apply_hop_channel clear_pipe_loss
hop_to_next_epoch c tunes p =
    let q = commit_pending_mask p in
    let epoch : ℕ = (q.hop_epoch + 1) % 256 in
    clear_pipe_loss c (
      apply_hop_channel tunes (record q {
        hop_epoch = epoch;
        hop_index = channel_for_epoch_masked epoch q.active_mask c.hop_count;
      }))

unfoldable pub escape_silent_channel : CentralConfig → Bool → Central → Central
unfolding hop_to_next_epoch
escape_silent_channel c tunes p = hop_to_next_epoch c tunes (record p { silent_windows = 0 })

unfoldable pub score_current_channel : CentralConfig → ℕ → ℕ → Central → Central
score_current_channel c motion active p =
    let penalty = window_penalty motion active p.pipe_rssi_dbm c.rssi_floor_dbm (pipe_count c) in
    if active == 0 then p else record p {
      channel_bad =
          set p.channel_bad p.hop_index
            (score_update (get_or p.channel_bad p.hop_index 0) penalty channel_bad_decay);
    }

-- The pipes from `pipe` on, `n` of them, that `wanted` says, as a mask.
unfoldable pub pipes_where : (ℕ → Bool) → ℕ → ℕ → ℕ → ℕ
pipes_where wanted zero pipe mask = mask
pipes_where wanted (suc n) pipe mask =
    pipes_where wanted n (suc pipe) (if wanted pipe then set_bit mask pipe else mask)

unfoldable pub note_silence : ℕ → Central → Central
note_silence heard p =
    if heard == 0
    then record p { silent_windows = (p.silent_windows + 1) % 2 ^ 16 }
    else record p { silent_windows = 0; silent_escapes = 0 }

-- The vote, then the escape.
unfoldable pub hop_if_due : CentralConfig → Bool → Central → Central
unfolding hop_to_next_epoch escape_silent_channel
hop_if_due c tunes p =
    let voted =
      if hop_vote p.pipe_loss c.pipe_weights (pipe_count c) c.vote_threshold
      then hop_to_next_epoch c tunes p
      else p in
    if leb (silent_escape_windows c) voted.silent_windows && ltb voted.silent_escapes c.hop_count
    then escape_silent_channel c tunes
        (record voted { silent_escapes = (voted.silent_escapes + 1) % 256 })
    else voted

-- The state of `decision_work_fn` on a hopping link up to the hop, with the three masks taken.
unfoldable pub window_step : CentralConfig → Surroundings → Central → Central
unfolding score_current_channel recompute_mask pipes_where note_silence hop_if_due
window_step c s p =
    let motion = p.pipe_motion_mask in
    let active = p.pipe_active_mask in
    let taken : Central = record p {
      pipe_heard_mask = 0;
      pipe_motion_mask = 0;
      pipe_active_mask = 0;
    } in
    let accrued : Central = record taken {
      pipe_loss =
          accrue_loss p.pipe_loss (pipe_count c) motion active p.pipe_rssi_dbm c.rssi_floor_dbm;
    } in
    let masked = recompute_mask c active (score_current_channel c motion active accrued) in
    let lost = pipes_where (pipe_needs_rendezvous c s.uptime_ms masked) (pipe_count c) 0 0 in
    hop_if_due c s.tunes
      (note_silence p.pipe_heard_mask (record masked { pipe_was_lost_mask = lost }))

unfoldable pub decision_tick : CentralConfig → Surroundings → Central → List Staged × Central
unfolding window_step pipes_where stage_rejoin_beacon stage_beacon stage_mask_update
decision_tick c s p =
    let heard = p.pipe_heard_mask in
    let fixed = stage_beacon c s heard (record p { pipe_heard_mask = 0 }) in
    let rejoining =
      pipes_where (λ pipe. test_bit heard pipe && test_bit p.pipe_was_lost_mask pipe) (pipe_count c)
        0 0 in
    let stepped = window_step c s p in
    let rejoins = if rejoining == 0 then [] else stage_rejoin_beacon c s rejoining stepped in
    let (beacons, beaconed) = stage_beacon c s heard stepped in
    let (updates, updated) = stage_mask_update c s beaconed in
    if leb c.hop_count 1 then fixed else (rejoins ++ (beacons ++ updates), updated)
