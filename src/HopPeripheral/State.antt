-- ===== src/HopPeripheral/State.antt =====
-- src/hop_peripheral.c: the devicetree values, the static variables and the retained RAM. Flags held
-- in an `atomic_t` are Booleans, and its counters wrap at 32 bits. The variables of src/hop.c that
-- this file writes, `hop_index` and `applied_index`, stand here too.
use zmk_feature_split_esb.Prelude.{ℕ, ◌+◌, ◌-◌, ◌/◌, Bool, List}
use zmk_feature_split_esb.Prelude.Int.{ℤ}
use zmk_feature_split_esb.SpscLatch.{SpscLatch}

pub record Config : Type 0 where
  pub hop_count : ℕ
  pub hop_threshold : ℕ
  pub hop_window_ms : ℕ
  pub idle_keepalive_ms : ℕ
  pub retransmit_count : ℕ
  pub peer_count : ℕ
  pub self_pipe : ℕ

-- ESB_HOP_MASK_BYTES
abbrev pub mask_bytes : Config → ℕ
mask_bytes c = (c.hop_count + 7) / 8

-- ESB_HOP_SWEEP_DWELL_WINDOWS, a division rounded up plus 2.
abbrev pub sweep_dwell : ℕ → ℕ → ℕ
sweep_dwell idle_keepalive_ms hop_window_ms =
    (idle_keepalive_ms + hop_window_ms - 1) / hop_window_ms + 2

-- `struct hop_retained`
pub record Retained : Type 0 where
  pub magic : ℕ
  pub hop_index : ℕ
  pub epoch : ℕ
  pub mask : List ℕ
  pub checksum : ℕ

pub record Peripheral : Type 0 where
  pub hop_index : ℕ
  pub applied_index : ℕ
  pub retransmit_ceiling : ℕ
  pub attempts_ewma_x10 : ℕ
  pub max_tx_attempts : ℕ
  pub window_attempts_sum : ℕ
  pub window_packets : ℕ
  pub window_noack_packets : ℕ
  pub data_sent_since_tick : Bool
  pub tx_succeeded_since_tick : Bool
  pub tx_failed_since_tick : Bool
  pub noack_sent_since_tick : Bool
  pub link_acked : Bool
  pub beacon_epoch : ℕ
  pub bad_windows : ℕ
  pub sweep_windows : ℕ
  pub degrade_undo_index : ℕ
  pub degrade_undo_armed : Bool
  pub adopted_epoch : ℕ
  pub uplink_rssi_dbm : ℤ
  pub active_mask : List ℕ
  pub mask_ready : Bool
  pub staged_mask_pool : List (List ℕ)
  pub staged_mask_latch : SpscLatch
  pub peer_table : List ℕ
  pub retained_link : Retained
