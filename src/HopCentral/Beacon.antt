-- ===== src/HopCentral/Beacon.antt =====
-- src/hop_central.c: the beacons and the mask updates that a tick stages.
use zmk_feature_split_esb.Prelude.{
  ℕ, zero, suc, ◌+◌, ◌-◌, ◌/◌, Bool, ◌&&◌, ◌||◌, not, leb, ltb, if◌then◌else◌, Option, none, some,
  List, [], ◌∷◌, ◌++◌, get_or, take,
}
use zmk_feature_split_esb.Prelude.Int.{pos, to_word}
use zmk_feature_split_esb.Prelude.Bits.{test_bit}
use zmk_feature_split_esb.HopPolicy.Grade.{should_beacon, window_period_fires}
use zmk_feature_split_esb.HopCentral.State.{
  CentralConfig, Central, Surroundings, pipe_count, pipe_needs_rendezvous,
}

-- BEACON_REPEAT_WINDOWS, BEACON_RSSI_PERIOD_WINDOWS, MASK_REFRESH_WINDOWS
abbrev pub beacon_repeat_windows : ℕ
beacon_repeat_windows = 4

abbrev pub beacon_rssi_period_windows : ℕ
beacon_rssi_period_windows = 4

abbrev pub mask_refresh_windows : ℕ
mask_refresh_windows = 32

-- A control packet on its way: to the wire's peer, or to the control latch of a pipe.
pub data Staged : Type 0 where
  to_wire latch_beacon latch_mask : ℕ → List ℕ → Staged

-- The entries of the `n` peers from `peer` on.
unfoldable pub beacon_peers : Surroundings → Central → ℕ → ℕ → List ℕ
beacon_peers s p zero peer = []
beacon_peers s p (suc n) peer =
    s.battery_level peer
    ∷ to_word 8 (get_or p.pipe_rssi_dbm peer (pos 0))
    ∷ beacon_peers s p n (suc peer)

unfoldable pub beacon_packet : CentralConfig → Surroundings → Central → List ℕ
unfolding beacon_peers
beacon_packet c s p =
    0xFE ∷ p.hop_epoch ∷ s.hid_modifiers ∷ s.hid_indicators ∷ beacon_peers s p (pipe_count c) 0

-- `hop_stage_beacon`; `none` is -EINVAL, and the errors of the link and the wire are not looked at.
unfoldable pub stage_beacon_to : CentralConfig → Surroundings → Central → ℕ → Option Staged
unfolding beacon_packet
stage_beacon_to c s p pipe =
    if leb (pipe_count c) pipe
    then none
    else if c.owns pipe
    then some (to_wire pipe (beacon_packet c s p))
    else some (latch_beacon pipe (beacon_packet c s p))

abbrev pub staged : Option Staged → List Staged
staged none = []
staged (some packet) = packet ∷ []

-- The loop over the `n` pipes from `pipe` on, to those that `wanted` says.
unfoldable pub stage_to : (ℕ → Bool) → (ℕ → Option Staged) → ℕ → ℕ → List Staged
stage_to wanted packet zero pipe = []
stage_to wanted packet (suc n) pipe =
    (if wanted pipe then staged (packet pipe) else []) ++ stage_to wanted packet n (suc pipe)

unfoldable pub stage_rejoin_beacon : CentralConfig → Surroundings → ℕ → Central → List Staged
unfolding stage_to stage_beacon_to
stage_rejoin_beacon c s rejoining p =
    stage_to (test_bit rejoining) (stage_beacon_to c s p) (pipe_count c) 0

unfoldable pub pipe_heard_in_window : CentralConfig → Surroundings → ℕ → ℕ → Bool
pipe_heard_in_window c s heard pipe = if c.owns pipe then s.peer_is_up else test_bit heard pipe

unfoldable pub stage_beacon : CentralConfig → Surroundings → ℕ → Central → List Staged × Central
unfolding stage_to stage_beacon_to pipe_heard_in_window
stage_beacon c s heard p =
    let (burst, beaconing) = should_beacon p.hop_epoch p.beaconing beacon_repeat_windows in
    let (refresh, window) = window_period_fires p.beacon_window beacon_rssi_period_windows in
    let wanted =
      λ (pipe : ℕ). not (c.is_self pipe) && (burst || pipe_heard_in_window c s heard pipe) in
    (
      if not burst && not refresh
          then []
          else stage_to wanted (stage_beacon_to c s p) (pipe_count c) 0,
      record p { beaconing = beaconing; beacon_window = window },
    )

unfoldable pub mask_packet : CentralConfig → Central → List ℕ
mask_packet c p =
    0xFD ∷ take ((c.hop_count + 7) / 8) (if p.pending_valid then p.pending_mask else p.active_mask)

unfoldable pub stage_mask_update : CentralConfig → Surroundings → Central → List Staged × Central
unfolding stage_to mask_packet
stage_mask_update c s p =
    let burst = ltb 0 p.mask_update_repeats in
    let (refresh, window) = window_period_fires p.mask_window mask_refresh_windows in
    let counted : Central = record p {
      mask_window = window;
      mask_update_repeats = if burst then p.mask_update_repeats - 1 else p.mask_update_repeats;
    } in
    let wanted = λ (pipe : ℕ).
      not (c.is_self pipe || c.owns pipe) && not (pipe_needs_rendezvous c s.uptime_ms p pipe) in
    (
      if not burst && not refresh
          then []
          else stage_to wanted (λ pipe. some (latch_mask pipe (mask_packet c p))) (pipe_count c) 0,
      counted,
    )
