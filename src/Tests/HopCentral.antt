-- ===== src/Tests/HopCentral.antt =====
-- src/hop_central.c.
use zmk_feature_split_esb.Prelude.{refl, true, false, ◌==◌, List, [], ◌∷◌, replicate, arith}
use zmk_feature_split_esb.Prelude.Int.{ℤ, pos, negsuc}
use zmk_feature_split_esb.HopCentral.State.{CentralConfig, Central, Surroundings}
use zmk_feature_split_esb.HopCentral.Mask.{hop_boot_mask}
use zmk_feature_split_esb.HopCentral.Decision.{decision_tick}
use zmk_feature_split_esb.HopCentral.Invariant.{IsPool, IsSound}
use zmk_feature_split_esb.HopCentral.Invariant.Tick.{decision_tick-IsSound}
use zmk_feature_split_esb.HopCentral.Invariant.Boot.{IsLoaded, hop_boot_mask-IsSound}
use zmk_feature_split_esb.HopCentral.Invariant.Reach.{
  ticked, central_step, booted, stepped, HoldsAnchors, reachable-IsSound,
}

-- A pool of 10 channels with channel 0 as the anchor, and two pipes.
abbrev pub central_config : CentralConfig
central_config = record {
  hop_count = 10;
  pipe_weights = 1 ∷ 2 ∷ [];
  vote_threshold = 24;
  idle_keepalive_ms = 500;
  rssi_floor_dbm = negsuc 79;
  survey_threshold_dbm = negsuc 84;
  mask_threshold = 40;
  restore_windows = 1000;
  min_active = 3;
  is_anchor = λ k. k == 0;
  is_self = λ pipe. false;
  owns = λ pipe. false;
}

pub central_config-IsPool : IsPool central_config
central_config-IsPool = record { hops = omega arith; few = omega arith }

abbrev pub loaded : Central
loaded = record {
  hop_index = 0;
  applied_index = 255;
  hop_epoch = 0;
  pipe_loss = 0 ∷ 0 ∷ [];
  pipe_rssi_dbm = pos 0 ∷ pos 0 ∷ [];
  pipe_heard_mask = 0;
  pipe_motion_mask = 0;
  pipe_active_mask = 0;
  silent_windows = 0;
  silent_escapes = 0;
  pipe_last_heard_ms = 0 ∷ 0 ∷ [];
  pipe_ever_heard = 0;
  pipe_was_lost_mask = 0;
  beaconing = record { beaconed_epoch = 0; repeats_left = 0 };
  beacon_window = 0;
  channel_bad = replicate 10 0;
  channel_masked_windows = replicate 10 0;
  channel_active_windows = replicate 10 0;
  channel_retest_level = replicate 10 0;
  active_mask = 0 ∷ 0 ∷ [];
  pending_mask = 0 ∷ 0 ∷ [];
  anchor_mask = 0 ∷ 0 ∷ [];
  pending_valid = false;
  mask_ready = false;
  mask_update_repeats = 0;
  mask_window = 0;
  mask_save_scheduled = false;
  persisted_mask = 0 ∷ 0 ∷ [];
  persisted_mask_valid = false;
}

-- Channel 3 is noisy, the others are quiet.
abbrev pub energy_dbm : List ℤ
energy_dbm = negsuc 99 ∷ negsuc 99 ∷ negsuc 99 ∷ negsuc 39 ∷ replicate 6 (negsuc 99)

pub loaded-IsLoaded : IsLoaded central_config 0 loaded
loaded-IsLoaded = record {
  index = refl;
  epoch = refl;
  active_size = refl;
  pending_size = refl;
  active_in = λ k h. absurd (omega arith);
  pending_in = λ k h. absurd (omega arith);
}

abbrev pub surroundings : Surroundings
surroundings = record {
  uptime_ms = 5000;
  peer_is_up = false;
  battery_level = λ peer. 90;
  hid_modifiers = 0;
  hid_indicators = 1;
  tunes = true;
}

pub booted-IsSound : IsSound central_config 0 (hop_boot_mask central_config energy_dbm loaded)
booted-IsSound =
    hop_boot_mask-IsSound central_config central_config-IsPool energy_dbm loaded (omega arith) refl
      loaded-IsLoaded

decision_tick-IsSound_example :
    IsSound central_config 0
      (decision_tick central_config surroundings (hop_boot_mask central_config energy_dbm loaded)).1
decision_tick-IsSound_example =
    decision_tick-IsSound central_config central_config-IsPool 0 (omega arith) surroundings
      (hop_boot_mask central_config energy_dbm loaded) booted-IsSound

abbrev after_tick : Central
after_tick =
    central_step central_config (ticked surroundings)
      (hop_boot_mask central_config energy_dbm loaded)

reachable-IsSound_example :
    HoldsAnchors central_config central_config-IsPool after_tick
    × IsSound central_config 0 after_tick
reachable-IsSound_example =
    reachable-IsSound central_config central_config-IsPool energy_dbm loaded after_tick
      (omega arith) refl loaded-IsLoaded refl (stepped (ticked surroundings) booted)
