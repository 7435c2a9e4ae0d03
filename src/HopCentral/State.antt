-- ===== src/HopCentral/State.antt =====
-- src/hop_central.c: the devicetree values, the static variables, and what one tick reads of other
-- files. Flags held in an `atomic_t` are Booleans or words with a bit to a pipe. The variables of
-- src/hop.c that this file writes, `hop_index` and `applied_index`, stand here too.
use zmk_feature_split_esb.Prelude.{
  ℕ, ◌+◌, ◌-◌, ◌*◌, ◌%◌, ◌^◌, Bool, true, false, ◌||◌, leb, ◌==◌, if◌then◌else◌, List, length,
  get_or, set, min,
}
use zmk_feature_split_esb.Prelude.Int.{ℤ}
use zmk_feature_split_esb.Prelude.Bits.{test_bit, set_bit}
use zmk_feature_split_esb.HopPolicy.Grade.{Beaconing}

-- `is_anchor` is `hop_is_anchor_index`, `is_self` is `esb_link_pipe_is_self` and `owns` is
-- `wire_central_owns_pipe`: each is fixed by the devicetree.
pub record CentralConfig : Type 0 where
  pub hop_count : ℕ
  pub pipe_weights : List ℕ
  pub vote_threshold : ℕ
  pub idle_keepalive_ms : ℕ
  pub rssi_floor_dbm : ℤ
  pub survey_threshold_dbm : ℤ
  pub mask_threshold : ℕ
  pub restore_windows : ℕ
  pub min_active : ℕ
  pub is_anchor : ℕ → Bool
  pub is_self : ℕ → Bool
  pub owns : ℕ → Bool

-- PERIPHERAL_COUNT
abbrev pub pipe_count : CentralConfig → ℕ
pipe_count c = length c.pipe_weights

-- ESB_HOP_LOSS_DETECT_MS
abbrev pub loss_detect_ms : CentralConfig → ℕ
loss_detect_ms c = 2 * c.idle_keepalive_ms

-- SILENT_ESCAPE_WINDOWS
abbrev pub silent_escape_windows : CentralConfig → ℕ
silent_escape_windows c = min (2 * c.hop_count) 32

pub record Central : Type 0 where
  pub hop_index : ℕ
  pub applied_index : ℕ
  pub hop_epoch : ℕ
  pub pipe_loss : List ℕ
  pub pipe_rssi_dbm : List ℤ
  pub pipe_heard_mask : ℕ
  pub pipe_motion_mask : ℕ
  pub pipe_active_mask : ℕ
  pub silent_windows : ℕ
  pub silent_escapes : ℕ
  pub pipe_last_heard_ms : List ℕ
  pub pipe_ever_heard : ℕ
  pub pipe_was_lost_mask : ℕ
  pub beaconing : Beaconing
  pub beacon_window : ℕ
  pub channel_bad : List ℕ
  pub channel_masked_windows : List ℕ
  pub channel_active_windows : List ℕ
  pub channel_retest_level : List ℕ
  pub active_mask : List ℕ
  pub pending_mask : List ℕ
  pub anchor_mask : List ℕ
  pub pending_valid : Bool
  pub mask_ready : Bool
  pub mask_update_repeats : ℕ
  pub mask_window : ℕ
  pub mask_save_scheduled : Bool
  pub persisted_mask : List ℕ
  pub persisted_mask_valid : Bool

-- What a tick reads elsewhere: the uptime, the wire's peer, the batteries and the HID state, and
-- whether the radio accepts a retune.
pub record Surroundings : Type 0 where
  pub uptime_ms : ℕ
  pub peer_is_up : Bool
  pub battery_level : ℕ → ℕ
  pub hid_modifiers : ℕ
  pub hid_indicators : ℕ
  pub tunes : Bool

-- `apply_hop_channel` of src/hop.c.
unfoldable pub apply_hop_channel : Bool → Central → Central
apply_hop_channel tunes p =
    if p.hop_index == p.applied_index
    then p
    else if tunes
    then record p { applied_index = p.hop_index }
    else p

unfoldable pub pipe_quiet_ms : CentralConfig → ℕ → Central → ℕ → ℕ
pipe_quiet_ms c uptime_ms p pipe =
    if leb (pipe_count c) pipe
    then 2 ^ 32 - 1
    else (uptime_ms + (2 ^ 32 - get_or p.pipe_last_heard_ms pipe 0)) % 2 ^ 32

unfoldable pub pipe_heard : CentralConfig → Central → ℕ → Bool
pipe_heard c p pipe = if leb (pipe_count c) pipe then false else test_bit p.pipe_ever_heard pipe

unfoldable pub pipe_note_seen : CentralConfig → ℕ → ℕ → Central → Central
pipe_note_seen c uptime_ms pipe p = if leb (pipe_count c) pipe then p else record p {
  pipe_last_heard_ms = set p.pipe_last_heard_ms pipe uptime_ms;
  pipe_ever_heard = set_bit p.pipe_ever_heard pipe;
}

unfoldable pub pipe_needs_rendezvous : CentralConfig → ℕ → Central → ℕ → Bool
unfolding pipe_quiet_ms
pipe_needs_rendezvous c uptime_ms p pipe =
    if leb (pipe_count c) pipe
    then true
    else if c.is_self pipe || c.owns pipe
    then false
    else leb (loss_detect_ms c) (pipe_quiet_ms c uptime_ms p pipe)
