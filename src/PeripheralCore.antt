-- ===== src/PeripheralCore.antt =====
-- src/peripheral.c, for a keymap with sensors, and src/esb_hid_state.h: what a peripheral keeps of its
-- events, its keepalive, the queue of the central's commands and the HID state that the central syncs.
pub mod Commands
pub mod Sizes
pub mod Sync
use zmk_feature_split_esb.Prelude.{
  ℕ, ◌+◌, ◌*◌, ◌/◌, ◌%◌, ◌^◌, Bool, true, false, not, ltb, ◌==◌, if◌then◌else◌, Option, none, some,
  List, [], ◌∷◌, length, get_elem?, set,
}
use zmk_feature_split_esb.Prelude.Int.{ℤ, ◌+ℤ◌}
use zmk_feature_split_esb.ByteOrder.{ByteOrder}
use zmk_feature_split_esb.EventWire.{Event, input_event, other_event, EventTypes, encode_event}
use zmk_feature_split_esb.Keepalive.Bitmap.{bitmap_set}
use zmk_feature_split_esb.Keepalive.Codec.{HeldKey, MotionTotal, Snapshot, keepalive_encode}
use zmk_feature_split_esb.CentralInput.State.{InputEvent}
use zmk_feature_split_esb.CentralPipes.{battery_unknown}
use zmk_feature_split_esb.PeripheralInput.{note_event, held_keys}
use zmk_feature_split_esb.Totals.Sensor.{sensor_udeg, sensor_udeg_val1, sensor_udeg_val2}

-- The statics `pressed_positions` and `sensor_total_udeg`, and `held_input_keys` of
-- src/peripheral_input.c.
pub record Peripheral : Type 0 where
  pub pressed_positions : List ℕ
  pub sensor_total_udeg : List ℤ
  pub held_input_keys : List ℕ

-- ZMK's types of events and the layout of its members: the position and the state of a key event; the
-- index and the value of a sensor event, and the event with another value.
pub record Layout : Type 0 where
  pub types : EventTypes
  pub key_type : ℕ
  pub sensor_type : ℕ
  pub key_of : List ℕ → ℕ × Bool
  pub sensor_of : List ℕ → ℕ × ℤ × ℤ
  pub with_value : ℤ → ℤ → List ℕ → List ℕ

-- `charge` is what `zmk_battery_state_of_charge` answers, and `reporting` CONFIG_ZMK_BATTERY_REPORTING.
unfoldable pub peripheral_battery_level : Bool → ℕ → ℕ
peripheral_battery_level reporting charge =
    if not reporting then battery_unknown else if charge == 0 then battery_unknown else charge

unfoldable pub note_key_event : ℕ → Bool → Peripheral → Peripheral
unfolding bitmap_set
note_key_event position pressed p = record p {
  pressed_positions = bitmap_set p.pressed_positions position pressed;
}

module _ (z : Layout) where
  unfoldable pub sensor_event_to_total : List ℕ → List ℤ → List ℕ × List ℤ
  unfolding sensor_udeg sensor_udeg_val1 sensor_udeg_val2
  sensor_event_to_total bytes totals =
      let (sensor_index, val1, val2) = z.sensor_of bytes in
      elim (get_elem? totals sensor_index) [
        | none ↦ (bytes, totals)
        | some total ↦
            let sum = total +ℤ sensor_udeg val1 val2 in
            (
              z.with_value (sensor_udeg_val1 sum) (sensor_udeg_val2 sum) bytes,
              set totals sensor_index sum,
            )
      ]

  -- The event as it goes out, and what the peripheral keeps of it.
  unfoldable pub note_split_event : ℕ → Event → Peripheral → Event × Peripheral
  unfolding note_event note_key_event sensor_event_to_total
  note_split_event input_ev_key (input_event e) p =
      (input_event e, record p { held_input_keys = note_event input_ev_key e p.held_input_keys })
  note_split_event input_ev_key (other_event type bytes) p =
      let (mutated, totals) = sensor_event_to_total bytes p.sensor_total_udeg in
      if type == z.key_type
      then (other_event type bytes, note_key_event (z.key_of bytes).0 (z.key_of bytes).1 p)
      else if type == z.sensor_type
      then (other_event type mutated, record p { sensor_total_udeg = totals })
      else (other_event type bytes, p)

  -- `none` is -ENOTSUP.
  unfoldable pub peripheral_encode_event : ℕ → ℕ → Event → Peripheral → Option (List ℕ) × Peripheral
  unfolding note_split_event encode_event
  peripheral_encode_event input_ev_key wire_size event p =
      let (sent, after) = note_split_event input_ev_key event p in
      (encode_event z.types wire_size sent, after)

-- The snapshot that `peripheral_keepalive_fill` takes.
unfoldable pub keepalive_snapshot : ℕ → ℕ → ℕ → List MotionTotal → Peripheral → Snapshot
unfolding held_keys
keepalive_snapshot state link_cost battery_level motion_totals p =
    let held = held_keys p.held_input_keys in
    record {
      state = state;
      link_cost_x10 = link_cost;
      battery_level = battery_level;
      position_bitmap = p.pressed_positions;
      held_keys = held;
      held_count = length held;
      motion_totals = motion_totals;
      motion_count = length motion_totals;
      sensor_totals_udeg = p.sensor_total_udeg;
      sensor_count = length p.sensor_total_udeg;
    }

-- What is written and the length that is returned, cast to a `uint8_t`: 0 with nothing written.
abbrev pub written : Option (List ℕ) → List ℕ × ℕ
written none = ([], 0)
written (some packet) = (packet, length packet % 256)

unfoldable pub peripheral_keepalive_fill :
    ByteOrder → Bool → ℕ → ℕ → ℕ → ℕ → List MotionTotal → Peripheral → List ℕ × ℕ
unfolding keepalive_snapshot keepalive_encode peripheral_battery_level
peripheral_keepalive_fill order reporting charge out_size state link_cost motion_totals p =
    written (
      keepalive_encode order out_size (
        keepalive_snapshot state link_cost (peripheral_battery_level reporting charge) motion_totals
          p))

-- The two bytes have no bit in common, so `|` is `+`.
unfoldable pub hid_state_pack : ℕ → ℕ → ℕ
hid_state_pack modifiers indicators = (modifiers + indicators * 2 ^ 8) % 2 ^ 16

unfoldable pub hid_state_modifiers : ℕ → ℕ
hid_state_modifiers state = state % 256

unfoldable pub hid_state_indicators : ℕ → ℕ
hid_state_indicators state = state / 2 ^ 8 % 256

-- The first mismatch is logged: the flag after, and whether there was a log line.
unfoldable pub note_config_mismatch : Bool → Bool × Bool
note_config_mismatch config_mismatch = (true, not config_mismatch)
