-- ===== src/HopCentral/Mask.antt =====
-- src/hop_central.c: the mask of active channels: which channels are taken out, how long for, and
-- the mask of the boot.
use zmk_feature_split_esb.Prelude.{
  ℕ, zero, suc, ◌+◌, ◌%◌, ◌^◌, Bool, true, false, ◌&&◌, ◌||◌, not, leb, ltb, ◌==◌, if◌then◌else◌,
  Option, List, length, get_or, set,
}
use zmk_feature_split_esb.Prelude.Int.{ℤ}
use zmk_feature_split_esb.HopPolicy.Grade.{retest_threshold, retest_level_max}
use zmk_feature_split_esb.HopPolicy.Mask.{mask_get, mask_set, mask_active_count}
use zmk_feature_split_esb.HopPolicy.Channel.{channel_for_epoch_masked}
use zmk_feature_split_esb.HopPolicy.Survey.{worst_channel, survey_mask}
use zmk_feature_split_esb.HopPolicy.Store.{
  mask_store_length, mask_store_encode, mask_store_matches, mask_store_mask,
}
use zmk_feature_split_esb.HopCentral.State.{CentralConfig, Central}

-- MASK_UPDATE_REPEAT_WINDOWS
abbrev pub mask_update_repeat_windows : ℕ
mask_update_repeat_windows = 4

-- The loop of `ensure_mask` over the `n` channels from `channel` on.
unfoldable pub enter_channels : CentralConfig → ℕ → ℕ → Central → Central
enter_channels c zero channel p = p
enter_channels c (suc n) channel p = enter_channels c n (suc channel) (record p {
  active_mask = mask_set p.active_mask channel true;
  pending_mask = mask_set p.pending_mask channel true;
  anchor_mask = if c.is_anchor channel then mask_set p.anchor_mask channel true else p.anchor_mask;
})

unfoldable pub ensure_mask : CentralConfig → Central → Central
unfolding enter_channels
ensure_mask c p =
    if p.mask_ready then p else record (enter_channels c c.hop_count 0 p) { mask_ready = true }

unfoldable pub commit_pending_mask : Central → Central
commit_pending_mask p =
    if p.pending_valid then record p { active_mask = p.pending_mask; pending_valid = false } else p

-- A window more on an active channel: a restore period served live clears the retest level.
unfoldable pub serve_channel : CentralConfig → ℕ → ℕ → Central → Central
serve_channel c active channel p =
    let windows : ℕ = (get_or p.channel_active_windows channel 0 + 1) % 2 ^ 16 in
    let served = channel == p.hop_index && not (active == 0) in
    let counted : Central = record p {
      channel_active_windows = set p.channel_active_windows channel windows;
    } in
    if served && ltb (get_or p.channel_active_windows channel 0) c.restore_windows
    then (if leb c.restore_windows windows
        then record counted { channel_retest_level = set p.channel_retest_level channel 0 }
        else counted)
    else p

-- A window more on a masked channel: at its threshold it comes back. The first part says whether it
-- did.
unfoldable pub rest_channel : CentralConfig → ℕ → Central → Bool × Central
rest_channel c channel p =
    let retest = retest_threshold c.restore_windows (get_or p.channel_retest_level channel 0) in
    let windows : ℕ = (get_or p.channel_masked_windows channel 0 + 1) % 2 ^ 16 in
    if leb retest windows
    then (
      true,
      record p {
        pending_mask = mask_set p.pending_mask channel true;
        channel_bad = set p.channel_bad channel 0;
        channel_masked_windows = set p.channel_masked_windows channel 0;
      },
    )
    else (false, record p { channel_masked_windows = set p.channel_masked_windows channel windows })

-- The loop over the `n` channels from `channel` on, with `changed` so far.
unfoldable pub age_channels : CentralConfig → ℕ → ℕ → ℕ → Bool → Central → Bool × Central
unfolding serve_channel rest_channel
age_channels c active zero channel changed p = (changed, p)
age_channels c active (suc n) channel changed p =
    let (back, rested) = rest_channel c channel p in
    let kept = mask_get p.pending_mask channel in
    age_channels c active n (suc channel) (if kept then changed else (changed || back))
      (if kept then serve_channel c active channel p else rested)

unfoldable pub mask_channel : CentralConfig → ℕ → Central → Central
mask_channel c worst p =
    let level = get_or p.channel_retest_level worst 0 in
    let failed_early =
      ltb (get_or p.channel_active_windows worst 0) c.restore_windows
      && ltb level retest_level_max in
    record p {
      pending_mask = mask_set p.pending_mask worst false;
      channel_masked_windows = set p.channel_masked_windows worst 0;
      channel_retest_level =
          if failed_early
          then set p.channel_retest_level worst (level + 1)
          else p.channel_retest_level;
      channel_active_windows = set p.channel_active_windows worst 0;
    }

-- The worst channel above the score goes, unless too few would be left.
unfoldable pub mask_worst : CentralConfig → Bool → Central → Bool × Central
unfolding mask_channel
mask_worst c changed p =
    let worst =
      worst_channel p.channel_bad p.pending_mask p.anchor_mask c.hop_count c.mask_threshold in
    if ltb c.min_active (mask_active_count p.pending_mask c.hop_count) && ltb worst c.hop_count
    then (true, mask_channel c worst p)
    else (changed, p)

unfoldable pub recompute_mask : CentralConfig → ℕ → Central → Central
unfolding ensure_mask age_channels mask_worst
recompute_mask c active p =
    let (back, aged) = age_channels c active c.hop_count 0 false (ensure_mask c p) in
    let (changed, masked) = mask_worst c back aged in
    if changed
    then record masked {
      pending_valid = true;
      mask_update_repeats = mask_update_repeat_windows;
      mask_save_scheduled = true;
    }
    else masked

-- The loop of `hop_boot_mask` over the `n` channels from `channel` on: what was saved as masked and
-- is no anchor is masked again.
unfoldable pub recall_mask : List ℕ → List ℕ → ℕ → ℕ → List ℕ → List ℕ
recall_mask persisted anchors zero channel pending = pending
recall_mask persisted anchors (suc n) channel pending =
    recall_mask persisted anchors n (suc channel) (
      if not (mask_get persisted channel) && not (mask_get anchors channel)
      then mask_set pending channel false
      else pending)

-- `energy_dbm` is what `esb_survey_run` measured.
unfoldable pub hop_boot_mask : CentralConfig → List ℤ → Central → Central
unfolding ensure_mask recall_mask
hop_boot_mask c energy_dbm p =
    let ready = ensure_mask c p in
    let recalled =
      if ready.persisted_mask_valid
      then recall_mask ready.persisted_mask ready.anchor_mask c.hop_count 0 ready.pending_mask
      else ready.pending_mask in
    let surveyed =
      (survey_mask energy_dbm c.hop_count ready.anchor_mask c.min_active c.survey_threshold_dbm
        recalled).1 in
    let epoch : ℕ = (ready.hop_epoch + 1) % 256 in
    let known : Central = record ready { pending_mask = surveyed } in
    if leb c.hop_count 1
    then p
    else if mask_active_count surveyed c.hop_count == c.hop_count
    then known
    else record known {
      active_mask = surveyed;
      mask_update_repeats = mask_update_repeat_windows;
      hop_epoch = epoch;
      hop_index = channel_for_epoch_masked epoch surveyed c.hop_count;
    }

-- The settings handler for "esb_hop/mask", on the stored bytes that `read_cb` gave; the errors of
-- the read are the caller's.
unfoldable pub hop_mask_settings_set : CentralConfig → List ℕ → List ℕ → Central → Central
hop_mask_settings_set c channels stored p =
    if not (length stored == mask_store_length c.hop_count)
    then p
    else if not (mask_store_matches stored (length stored) channels c.hop_count)
    then p
    else record p {
      persisted_mask = mask_store_mask stored c.hop_count;
      persisted_mask_valid = true;
    }

-- What `mask_save_work_fn` hands to the settings; `none` where nothing is saved.
unfoldable pub mask_save : CentralConfig → List ℕ → Central → Option (List ℕ)
mask_save c channels p =
    mask_store_encode (mask_store_length c.hop_count) channels p.active_mask c.hop_count
