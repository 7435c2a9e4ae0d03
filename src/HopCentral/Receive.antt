-- ===== src/HopCentral/Receive.antt =====
-- src/hop_central.c: a received packet, and what is shown of the pipes.
use zmk_feature_split_esb.Prelude.{
  ℕ, zero, suc, Bool, true, false, ◌&&◌, not, leb, if◌then◌else◌, List, length, get_or, set,
}
use zmk_feature_split_esb.Prelude.Int.{ℤ, pos, ltb_ℤ}
use zmk_feature_split_esb.Prelude.Bits.{set_bit}
use zmk_feature_split_esb.HopPolicy.Grade.{rssi_to_dbm}
use zmk_feature_split_esb.Keepalive.Codec.{keepalive_matches, state_of, keepalive_is_active}
use zmk_feature_split_esb.HopCentral.State.{CentralConfig, Central, pipe_count}

-- `poll` is `esb_is_relay_poll`. The answer is whether the caller must not queue the packet.
unfoldable pub consume_rx : CentralConfig → ℕ → Bool → ℕ → List ℕ → ℤ → Central → Bool × Central
consume_rx c uptime_ms poll pipe packet rssi p =
    let keepalive = keepalive_matches packet (length packet) in
    let data_packet = not keepalive && not poll in
    let heard : Central = record p {
      pipe_rssi_dbm =
          if data_packet then set p.pipe_rssi_dbm pipe (rssi_to_dbm rssi) else p.pipe_rssi_dbm;
      pipe_heard_mask = set_bit p.pipe_heard_mask pipe;
      pipe_last_heard_ms = set p.pipe_last_heard_ms pipe uptime_ms;
      pipe_ever_heard = set_bit p.pipe_ever_heard pipe;
    } in
    let polling : Central = record heard { pipe_active_mask = set_bit p.pipe_active_mask pipe } in
    let moving : Central = record polling { pipe_motion_mask = set_bit p.pipe_motion_mask pipe } in
    if leb (pipe_count c) pipe
    then (false, p)
    else if poll
    then (true, heard)
    else if leb c.hop_count 1
    then (false, heard)
    else if keepalive
    then (false, if keepalive_is_active (state_of packet) then polling else heard)
    else (false, moving)

-- The loop over the `n` pipes from `pipe` on.
unfoldable pub worst_from : List ℤ → ℕ → ℕ → ℤ → ℤ
worst_from rssi_dbm zero pipe worst = worst
worst_from rssi_dbm (suc n) pipe worst =
    let level = get_or rssi_dbm pipe (pos 0) in
    worst_from rssi_dbm n (suc pipe) (if ltb_ℤ level worst then level else worst)

unfoldable pub worst_pipe_rssi_dbm : CentralConfig → Central → ℤ
unfolding worst_from
worst_pipe_rssi_dbm c p = worst_from p.pipe_rssi_dbm (pipe_count c) 0 (pos 0)

unfoldable pub pipe_rssi_dbm_of : CentralConfig → Central → ℕ → ℤ
pipe_rssi_dbm_of c p pipe =
    if leb (pipe_count c) pipe then pos 0 else get_or p.pipe_rssi_dbm pipe (pos 0)
