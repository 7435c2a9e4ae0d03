-- ===== src/HopPeripheral/Step.antt =====
-- src/hop_peripheral.c: the functions that change the state. A function takes the state and returns
-- the new one. `tunes` says whether the radio accepts a retune, which src/hop.c asks it for.
use zmk_feature_split_esb.Prelude.{
  ℕ, zero, suc, ◌+◌, ◌%◌, ◌^◌, min, bit_xor, Bool, true, false, ◌&&◌, ◌||◌, not, ltb, leb, ◌==◌,
  if◌then◌else◌, Option, none, some, List, [], ◌∷◌, get_or, take,
}
use zmk_feature_split_esb.HopPolicy.Grade.{
  ewma_update, acked_window_attempts, attempts_penalty, good_tx_attempts, should_hop,
  adaptive_retransmits,
}
use zmk_feature_split_esb.HopPolicy.Mask.{mask_set}
use zmk_feature_split_esb.HopPolicy.Channel.{
  index_next, index_next_active, channel_for_epoch_masked,
}
use zmk_feature_split_esb.Keepalive.Codec.{peripheral_state}
use zmk_feature_split_esb.SpscLatch.{peek, release}
use zmk_feature_split_esb.HopPeripheral.State.{
  Config, mask_bytes, sweep_dwell, Retained, Peripheral,
}

-- `apply_hop_channel` of src/hop.c: no work on the current channel, and the index is noted only if
-- the radio took it.
unfoldable pub apply_hop_channel : Bool → Peripheral → Peripheral
apply_hop_channel tunes p =
    if p.hop_index == p.applied_index
    then p
    else if tunes
    then record p { applied_index = p.hop_index }
    else p

-- Sets the channels from `channel` on, `n` of them.
unfoldable pub set_channels : ℕ → ℕ → List ℕ → List ℕ
set_channels zero channel mask = mask
set_channels (suc n) channel mask = set_channels n (suc channel) (mask_set mask channel true)

unfoldable pub ensure_mask : Config → Peripheral → Peripheral
unfolding set_channels
ensure_mask c p =
    if p.mask_ready
    then p
    else record p { active_mask = set_channels c.hop_count 0 p.active_mask; mask_ready = true }

abbrev pub retained_magic : ℕ
retained_magic = 0x484F5031

abbrev pub xor_bytes : ℕ → List ℕ → ℕ
xor_bytes sum [] = sum
xor_bytes sum (b ∷ bs) = xor_bytes (bit_xor sum b) bs

unfoldable pub retained_checksum : Config → Retained → ℕ
retained_checksum c r = xor_bytes (bit_xor r.hop_index r.epoch) (take (mask_bytes c) r.mask)

unfoldable pub retain_link_state : Config → Peripheral → Peripheral
unfolding retained_checksum
retain_link_state c p =
    let r : Retained = record {
      magic = retained_magic;
      hop_index = p.hop_index;
      epoch = p.adopted_epoch;
      mask = p.active_mask;
      checksum = p.retained_link.checksum;
    } in
    record p { retained_link = record r { checksum = retained_checksum c r } }

unfoldable pub is_retained : Config → Retained → Bool
unfolding retained_checksum
is_retained c r =
    r.magic == retained_magic && r.checksum == retained_checksum c r && ltb r.hop_index c.hop_count

unfoldable pub hop_restore : Config → Peripheral → Peripheral
unfolding is_retained ensure_mask
hop_restore c p =
    let r = p.retained_link in
    let q = ensure_mask c p in
    if leb c.hop_count 1 then p else if not (is_retained c r) then p else record q {
      active_mask = r.mask;
      adopted_epoch = r.epoch;
      beacon_epoch = r.epoch;
      hop_index = r.hop_index;
    }

-- The staged mask of a slot becomes the active one, if there is a slot.
unfoldable pub adopt_slot : Option ℕ → Peripheral → Peripheral
adopt_slot none p = p
adopt_slot (some slot) p = record p {
  active_mask = get_or p.staged_mask_pool slot p.active_mask;
  staged_mask_latch = (release p.staged_mask_latch slot).1;
}

unfoldable pub adopt_staged_mask : Peripheral → Peripheral
unfolding adopt_slot
adopt_staged_mask p = adopt_slot (peek p.staged_mask_latch) p

unfoldable pub clear_window_attempts : Peripheral → Peripheral
clear_window_attempts p = record p {
  max_tx_attempts = 0;
  window_attempts_sum = 0;
  window_packets = 0;
  window_noack_packets = 0;
}

unfoldable pub adopt_epoch : Config → Bool → ℕ → Peripheral → Peripheral
unfolding adopt_staged_mask apply_hop_channel clear_window_attempts
adopt_epoch c tunes epoch p =
    let q = adopt_staged_mask (record p { adopted_epoch = epoch }) in
    let tuned =
      apply_hop_channel tunes
        (record q { hop_index = channel_for_epoch_masked epoch q.active_mask c.hop_count }) in
    clear_window_attempts (record tuned {
      bad_windows = 0;
      sweep_windows = 0;
      degrade_undo_armed = false;
      attempts_ewma_x10 = 10;
    })

-- The end of `connected_window`: hop to the next active channel, with the way back noted.
unfoldable pub degrade_hop : Config → Bool → Peripheral → Peripheral
unfolding apply_hop_channel
degrade_hop c tunes p = apply_hop_channel tunes (record p {
  degrade_undo_index = p.hop_index;
  degrade_undo_armed = true;
  hop_index = index_next_active p.hop_index p.active_mask c.hop_count;
})

unfoldable pub connected_window : Config → Bool → Peripheral → Peripheral
unfolding degrade_hop clear_window_attempts
connected_window c tunes p =
    let typical =
      acked_window_attempts p.window_attempts_sum p.window_packets p.window_noack_packets in
    let (fires, streak) =
      should_hop p.bad_windows (attempts_penalty typical good_tx_attempts) c.hop_threshold in
    let graded : Peripheral = record (clear_window_attempts p) {
      sweep_windows = 0;
      degrade_undo_armed = false;
      attempts_ewma_x10 =
          if ltb 0 (p.max_tx_attempts % 256)
          then ewma_update p.attempts_ewma_x10 (p.max_tx_attempts % 256)
          else p.attempts_ewma_x10;
      bad_windows = streak;
    } in
    if fires then degrade_hop c tunes graded else graded

unfoldable pub lost_window : Config → Bool → Peripheral → Peripheral
unfolding apply_hop_channel clear_window_attempts
lost_window c tunes p =
    let q : Peripheral = record (clear_window_attempts p) {
      bad_windows = 0;
      sweep_windows =
          (p.sweep_windows + 1) % sweep_dwell c.idle_keepalive_ms c.hop_window_ms % 2 ^ 16;
    } in
    if q.degrade_undo_armed
    then apply_hop_channel tunes
        (record q { degrade_undo_armed = false; hop_index = q.degrade_undo_index })
    else if q.sweep_windows == 0
    then apply_hop_channel tunes (record q { hop_index = index_next q.hop_index c.hop_count })
    else q

unfoldable pub retransmit_budget : Config → Peripheral → ℕ
retransmit_budget c p =
    let ceiling : ℕ = p.retransmit_ceiling % 256 in
    if leb c.hop_count 1
    then ceiling
    else adaptive_retransmits p.attempts_ewma_x10 (min 2 ceiling) ceiling

unfoldable pub settle_link_state : Peripheral → Peripheral
settle_link_state p =
    let ack_proven = p.tx_succeeded_since_tick && not p.noack_sent_since_tick in
    record p {
      tx_failed_since_tick = false;
      tx_succeeded_since_tick = false;
      noack_sent_since_tick = false;
      link_acked =
          if p.tx_failed_since_tick && not ack_proven
          then false
          else if p.tx_succeeded_since_tick
          then true
          else p.link_acked;
    }

-- The choice of the tick on a hopping link: a new epoch, a live window or a lost one.
unfoldable pub hop_window : Config → Bool → Peripheral → Peripheral
unfolding adopt_epoch connected_window lost_window
hop_window c tunes p =
    if not (p.beacon_epoch % 256 == p.adopted_epoch)
    then adopt_epoch c tunes (p.beacon_epoch % 256) p
    else if p.link_acked
    then connected_window c tunes p
    else lost_window c tunes p

-- What a tick hands to the link layer.
pub record Tick : Type 0 where
  pub retransmits : ℕ
  pub keepalive_state : ℕ
  pub period_ms : ℕ

unfoldable pub keepalive_tick : Config → Bool → Peripheral → Peripheral × Tick
unfolding settle_link_state ensure_mask hop_window retain_link_state retransmit_budget
keepalive_tick c tunes p =
    let settled = settle_link_state p in
    let stepped = hop_window c tunes (ensure_mask c settled) in
    let kept = if stepped.link_acked then retain_link_state c stepped else stepped in
    let q = if ltb 1 c.hop_count then kept else settled in
    let active = q.data_sent_since_tick in
    let searching = not q.link_acked in
    (
      record q { data_sent_since_tick = false },
      record {
        retransmits = retransmit_budget c q;
        keepalive_state = peripheral_state active searching;
        period_ms = if active || searching then c.hop_window_ms else c.idle_keepalive_ms;
      },
    )

-- `record_tx_attempts`: the maximum, by compare-and-swap.
unfoldable pub record_tx_attempts : ℕ → Peripheral → Peripheral
record_tx_attempts attempts p =
    if ltb (p.max_tx_attempts % 256) attempts then record p { max_tx_attempts = attempts } else p

unfoldable pub note_tx_success : Config → ℕ → Peripheral → Peripheral
unfolding record_tx_attempts
note_tx_success c attempts p =
    let noted = record_tx_attempts attempts (record p { tx_succeeded_since_tick = true }) in
    if ltb 1 c.hop_count
    then record noted {
      window_attempts_sum = (noted.window_attempts_sum + attempts) % 2 ^ 32;
      window_packets = (noted.window_packets + 1) % 2 ^ 32;
    }
    else record p { tx_succeeded_since_tick = true }

unfoldable pub note_tx_failed : Config → Peripheral → Peripheral
unfolding record_tx_attempts
note_tx_failed c p =
    let q : Peripheral = record p {
      tx_failed_since_tick = true;
      tx_succeeded_since_tick = false;
    } in
    if ltb 1 c.hop_count then record_tx_attempts 0xFF q else q

unfoldable pub note_noack_sent : Config → Peripheral → Peripheral
note_noack_sent c p =
    let q : Peripheral = record p { noack_sent_since_tick = true } in
    if ltb 1 c.hop_count
    then record q { window_noack_packets = (q.window_noack_packets + 1) % 2 ^ 32 }
    else q

-- `none` is -EINVAL.
unfoldable pub set_retransmit_ceiling : Config → ℕ → Peripheral → Option Peripheral
set_retransmit_ceiling c ceiling p =
    if ltb c.retransmit_count ceiling
    then none
    else some (record p { retransmit_ceiling = ceiling })

unfoldable pub link_cost_x10 : Peripheral → ℕ
link_cost_x10 p = min p.attempts_ewma_x10 255
