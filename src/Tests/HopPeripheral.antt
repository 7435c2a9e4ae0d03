-- ===== src/Tests/HopPeripheral.antt =====
-- src/hop_peripheral.c.
use zmk_feature_split_esb.Prelude.{
  ℕ, ◌+◌, ◌*◌, ◌/◌, ◌%◌, ◌≤◌, ◌≡◌, refl, true, false, ◌&&◌, if◌then◌else◌, none, List, [], ◌∷◌,
  length, replicate, arith,
}
use zmk_feature_split_esb.Prelude.Int.{pos}
use zmk_feature_split_esb.HopPeripheral.State.{Config, Peripheral}
use zmk_feature_split_esb.HopPeripheral.Step.{
  keepalive_tick, settle_link_state, retain_link_state, hop_restore,
}
use zmk_feature_split_esb.HopPeripheral.Receive.{consume_rx}
use zmk_feature_split_esb.HopPeripheral.Invariant.{IsConfig, IsValid}
use zmk_feature_split_esb.HopPeripheral.Invariant.Tick.{keepalive_tick-IsValid}
use zmk_feature_split_esb.HopPeripheral.Invariant.Receive.{consume_rx-IsValid}
use zmk_feature_split_esb.HopPeripheral.Sweep.{
  lost_windows, dwell, IsSweeping, lost_windows-hop_index, lost_windows-reaches,
}
use zmk_feature_split_esb.HopPeripheral.Retained.{hop_restore-retain_link_state}
use zmk_feature_split_esb.HopPeripheral.LinkState.{
  TxEvent, succeeded, failed, noack, note_events, settle_link_state-note_events, has_failed,
  has_noack, last_outcome,
}

-- A pool of 10 channels, a window of 40 ms and a keepalive of 500 ms.
abbrev pub config : Config
config = record {
  hop_count = 10;
  hop_threshold = 24;
  hop_window_ms = 40;
  idle_keepalive_ms = 500;
  retransmit_count = 9;
  peer_count = 2;
  self_pipe = 1;
}

config-IsConfig : IsConfig config
config-IsConfig = record { hops = omega arith; few = omega arith; dwell = omega arith }

-- A peripheral on channel 7, nothing heard yet.
abbrev pub peripheral : Peripheral
peripheral = record {
  hop_index = 7;
  applied_index = 7;
  retransmit_ceiling = 9;
  attempts_ewma_x10 = 10;
  max_tx_attempts = 0;
  window_attempts_sum = 0;
  window_packets = 0;
  window_noack_packets = 0;
  data_sent_since_tick = false;
  tx_succeeded_since_tick = false;
  tx_failed_since_tick = false;
  noack_sent_since_tick = false;
  link_acked = true;
  beacon_epoch = 0;
  bad_windows = 0;
  sweep_windows = 3;
  degrade_undo_index = 0;
  degrade_undo_armed = false;
  adopted_epoch = 0;
  uplink_rssi_dbm = pos 0;
  active_mask = 255 ∷ 3 ∷ [];
  mask_ready = true;
  staged_mask_pool = (0 ∷ 0 ∷ []) ∷ (0 ∷ 0 ∷ []) ∷ [];
  staged_mask_latch = record { published = none; next_index = 0; slot_count = 2 };
  peer_table = 0 ∷ 0 ∷ [];
  retained_link = record { magic = 0; hop_index = 0; epoch = 0; mask = 0 ∷ 0 ∷ []; checksum = 0 };
}

peripheral-IsValid : IsValid config peripheral
peripheral-IsValid = record {
  shape = record {
    index = omega arith;
    undo = omega arith;
    sweep = omega arith;
    within = omega arith;
    active_size = refl;
    kept_size = refl;
    pool_size = (refl, (refl, tt));
  };
}

peripheral-IsSweeping : IsSweeping config peripheral
peripheral-IsSweeping = record { disarmed = refl; index = omega arith; within = omega arith }

keepalive_tick-IsValid_example : IsValid config (keepalive_tick config true peripheral).0
keepalive_tick-IsValid_example =
    keepalive_tick-IsValid config config-IsConfig true peripheral peripheral-IsValid

consume_rx-IsValid_example :
    IsValid config (consume_rx config false (0xFD ∷ 5 ∷ 1 ∷ []) peripheral).2
consume_rx-IsValid_example =
    consume_rx-IsValid config config-IsConfig false (0xFD ∷ 5 ∷ 1 ∷ []) peripheral
      peripheral-IsValid

lost_windows-hop_index_example :
    (lost_windows config (replicate 20 true) peripheral).hop_index
    ≡ (7 + (3 + length (replicate 20 true)) / dwell config) % 10
lost_windows-hop_index_example =
    lost_windows-hop_index config config-IsConfig (replicate 20 true) peripheral
      peripheral-IsSweeping

lost_windows-reaches_example :
    (n : ℕ) × (n ≤ 10 * dwell config)
    × ((lost_windows config (replicate n true) peripheral).hop_index ≡ 2)
    × ((lost_windows config (replicate n true) peripheral).applied_index ≡ 2)
lost_windows-reaches_example =
    lost_windows-reaches config config-IsConfig peripheral 2 peripheral-IsSweeping
      (record { tuned = refl }) (omega arith)

hop_restore-retain_link_state_example :
    let kept = (retain_link_state config peripheral).retained_link in
    let q = hop_restore config (record peripheral { retained_link = kept }) in
    (q.hop_index ≡ 7)
    × (q.adopted_epoch ≡ 0)
    × (q.beacon_epoch ≡ 0)
    × (q.active_mask ≡ 255 ∷ 3 ∷ [])
hop_restore-retain_link_state_example =
    hop_restore-retain_link_state config peripheral (omega arith) (omega arith) peripheral

abbrev noted : List TxEvent
noted = succeeded 2 ∷ failed ∷ succeeded 1 ∷ noack ∷ []

settle_link_state-note_events_example :
    (settle_link_state (note_events config noted peripheral)).link_acked
    ≡ (if has_failed noted && has_noack noted then false else last_outcome true noted)
settle_link_state-note_events_example =
    settle_link_state-note_events config noted peripheral
      (record { no_success = refl; no_failure = refl; no_noack = refl })
