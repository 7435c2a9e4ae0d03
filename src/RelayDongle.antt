-- ===== src/RelayDongle.antt =====
-- src/esb_hid_relay_peripheral.c: the reports that the relay dongle hands to its host. The host's sink
-- is a parameter: what it answers may hang on every call before, which the dongle's state lists.
pub mod Rounds
pub mod Shown
use zmk_feature_split_esb.Prelude.{
  ℕ, zero, suc, ◌+◌, ◌-◌, ◌*◌, ◌%◌, ◌^◌, Bool, true, false, ◌&&◌, ◌||◌, not, ltb, ◌==◌,
  if◌then◌else◌, Option, none, some, List, [], ◌∷◌, ◌++◌, length, get_or, take, drop,
}
use zmk_feature_split_esb.Prelude.Int.{ℤ, to_word, of_word}
use zmk_feature_split_esb.ByteOrder.{ByteOrder}
use zmk_feature_split_esb.CentralInput.Deliver.{or_zero, is_zero}
use zmk_feature_split_esb.HopPolicy.Store.{same_bytes}
use zmk_feature_split_esb.Totals.Motion.{MotionTrack, motion_track_delta, motion_track_short_delta}

-- ESB_HID_RELAY_POINTER_LENGTH, _BUTTONS_OFFSET and _MOTION_OFFSET
abbrev pub pointer_length : ℕ
pointer_length = 10

abbrev pub buttons_offset : ℕ
buttons_offset = 1

abbrev pub motion_offset : ℕ
motion_offset = 2

-- ZMK's report ids, and the sizes of its keyboard and consumer reports.
pub record Reports : Type 0 where
  pub keyboard_id : ℕ
  pub consumer_id : ℕ
  pub mouse_id : ℕ
  pub keyboard_length : ℕ
  pub consumer_length : ℕ

-- A call of the registered callback, and whether it took the report.
pub record Told : Type 0 where
  pub bytes : List ℕ
  pub only_motion : Bool
  pub took : Bool

pub record Dongle : Type 0 where
  pub delivered_keyboard : List ℕ
  pub delivered_consumer : List ℕ
  pub delivered_buttons : ℕ
  pub pointer_tracks : List MotionTrack
  pub pointer_heard_ms : ℕ
  pub told : List Told

-- The entries of `relay_reports`.
pub data Slot : Type 0 where
  keyboard consumer : Slot

unfoldable pub delivered : Slot → Dongle → List ℕ
delivered keyboard d = d.delivered_keyboard
delivered consumer d = d.delivered_consumer

unfoldable pub with_delivered : Slot → List ℕ → Dongle → Dongle
with_delivered keyboard bytes d = record d { delivered_keyboard = bytes }
with_delivered consumer bytes d = record d { delivered_consumer = bytes }

unfoldable pub track_axis : MotionTrack → ℤ → Option ℤ × MotionTrack
unfolding motion_track_delta motion_track_short_delta
track_axis track short_total =
    if track.valid
    then motion_track_short_delta track short_total
    else motion_track_delta track short_total

abbrev pub forget_tracks : List MotionTrack → List MotionTrack
forget_tracks [] = []
forget_tracks (track ∷ tracks) = record track { valid = false } ∷ forget_tracks tracks

unfoldable pub forget_pointer_after_silence : ℕ → ℕ → Dongle → Dongle
forget_pointer_after_silence loss_detect_ms now_ms d =
    let silent = (now_ms + (2 ^ 32 - d.pointer_heard_ms)) % 2 ^ 32 in
    record d {
      pointer_tracks =
          if ltb loss_detect_ms silent then forget_tracks d.pointer_tracks else d.pointer_tracks;
      pointer_heard_ms = now_ms;
    }

module _ (order : ByteOrder) where
  -- The axes' words from their offset on: the words of the deltas, whether one moves, and the tracks.
  unfoldable pub axes_to_deltas : List ℕ → List MotionTrack → List ℕ × Bool × List MotionTrack
  unfolding track_axis
  axes_to_deltas bytes [] = ([], false, [])
  axes_to_deltas bytes (track ∷ tracks) =
      let (delta, after) = track_axis track (of_word 16 (order.get_le16 bytes)) in
      let value = or_zero delta in
      let (words, moves, rest) = axes_to_deltas (drop 2 bytes) tracks in
      (order.put_le16 (to_word 16 value) ++ words, not (is_zero value) || moves, after ∷ rest)

  unfoldable pub pointer_totals_to_deltas :
      List ℕ → List MotionTrack → List ℕ × Bool × List MotionTrack
  unfolding axes_to_deltas
  pointer_totals_to_deltas bytes tracks =
      let (words, moves, after) = axes_to_deltas (drop motion_offset bytes) tracks in
      (take motion_offset bytes ++ words, moves, after)

module _ (z : Reports) where
  unfoldable pub relay_report_find : ℕ → Option Slot
  relay_report_find report_id =
      if report_id == z.keyboard_id
      then some keyboard
      else if report_id == z.consumer_id
      then some consumer
      else none

  unfoldable pub relay_report_length : ℕ → Option Slot → ℕ
  relay_report_length report_id slot =
      if report_id == z.mouse_id then pointer_length else elim slot [
        | none ↦ 0
        | some keyboard ↦ z.keyboard_length
        | some consumer ↦ z.consumer_length
      ]

module _ (takes : List Told → List ℕ → Bool → Bool) where
  unfoldable pub call : List ℕ → Bool → Dongle → Dongle
  call bytes only_motion d = record d {
    told =
        d.told
        ++ (record {
          bytes = bytes;
          only_motion = only_motion;
          took = takes d.told bytes only_motion;
        }
            ∷ []);
  }

module _ (order : ByteOrder) (z : Reports) (takes : List Told → List ℕ → Bool → Bool) where
  -- After the silence has been looked at.
  unfoldable pub deliver_totals : List ℕ → Dongle → Dongle
  unfolding pointer_totals_to_deltas call
  deliver_totals bytes d =
      let (usb, moves, tracks) = pointer_totals_to_deltas order bytes d.pointer_tracks in
      let buttons = get_or usb buttons_offset 0 in
      let only_motion = buttons == d.delivered_buttons in
      if moves || not only_motion
      then (if takes d.told usb only_motion
          then record (call takes usb only_motion d) {
            delivered_buttons = buttons;
            pointer_tracks = tracks;
          }
          else call takes usb only_motion d)
      else record d { pointer_tracks = tracks }

  unfoldable pub deliver_pointer : ℕ → ℕ → List ℕ → Dongle → Dongle
  unfolding forget_pointer_after_silence deliver_totals
  deliver_pointer loss_detect_ms now_ms bytes d =
      deliver_totals bytes (forget_pointer_after_silence loss_detect_ms now_ms d)

  unfoldable pub deliver_report : Slot → List ℕ → Dongle → Dongle
  unfolding delivered with_delivered call
  deliver_report slot bytes d =
      if same_bytes (delivered slot d) bytes
      then d
      else if takes d.told bytes false
      then with_delivered slot bytes (call takes bytes false d)
      else call takes bytes false d

  -- One report from the bytes that are left, of the length that was found for it.
  unfoldable pub deliver_one : ℕ → ℕ → Option Slot → List ℕ → Dongle → Dongle
  unfolding deliver_pointer deliver_report
  deliver_one loss_detect_ms now_ms none bytes d = deliver_pointer loss_detect_ms now_ms bytes d
  deliver_one loss_detect_ms now_ms (some slot) bytes d = deliver_report slot bytes d

  -- The loop of `esb_hid_relay_deliver` with a callback registered, `fuel` rounds at most.
  unfoldable pub deliver_from : ℕ → ℕ → ℕ → List ℕ → Dongle → Dongle
  unfolding relay_report_find relay_report_length deliver_one
  deliver_from loss_detect_ms now_ms zero bytes d = d
  deliver_from loss_detect_ms now_ms (suc fuel) [] d = d
  deliver_from loss_detect_ms now_ms (suc fuel) (report_id ∷ bytes) d =
      let slot = relay_report_find z report_id in
      let size = relay_report_length z report_id slot in
      let rest =
        deliver_from loss_detect_ms now_ms fuel (drop size (report_id ∷ bytes))
          (deliver_one loss_detect_ms now_ms slot (take size (report_id ∷ bytes)) d) in
      if size == 0 || ltb (length (report_id ∷ bytes)) size then d else rest

  unfoldable pub relay_deliver : Bool → ℕ → ℕ → List ℕ → Dongle → Dongle
  unfolding deliver_from
  relay_deliver registered loss_detect_ms now_ms bytes d =
      if not registered then d else deliver_from loss_detect_ms now_ms (length bytes) bytes d
