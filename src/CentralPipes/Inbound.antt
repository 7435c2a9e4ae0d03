-- ===== src/CentralPipes/Inbound.antt =====
-- src/central.c: the events and keepalives that wait for the work queue, and what is made of them,
-- for a keymap with sensors.
use zmk_feature_split_esb.Prelude.{
  ℕ, zero, suc, Bool, ◌&&◌, not, leb, ◌==◌, if◌then◌else◌, Option, none, some, List, [], ◌∷◌, ◌++◌,
  length, get_elem?, set,
}
use zmk_feature_split_esb.Prelude.Int.{ℤ}
use zmk_feature_split_esb.ByteOrder.{ByteOrder}
use zmk_feature_split_esb.EventWire.{other_event}
use zmk_feature_split_esb.Keepalive.Bitmap.{position_count, key_verdict}
use zmk_feature_split_esb.Keepalive.Codec.{
  bitmap_of, battery_level_of, sensor_count_of, sensor_total_udeg_at,
}
use zmk_feature_split_esb.CentralKeys.{KeyEvent, deliver_verdict, replay_tracked}
use zmk_feature_split_esb.Totals.Sensor.{
  SensorTrack, sensor_udeg, sensor_udeg_val1, sensor_udeg_val2, sensor_track_delta,
}
use zmk_feature_split_esb.CentralPipes.{
  battery_unknown, PipeState, Call, key_position, rotation, split_event, battery_changed, key_calls,
}

-- A key position event, a battery event and a sensor event of ZMK, as the bytes of its union member
-- tell them, their types, and the options CONFIG_ZMK_BATTERY_REPORTING and
-- CONFIG_ZMK_SPLIT_BLE_CENTRAL_BATTERY_LEVEL_FETCHING.
pub record ZmkEvents : Type 0 where
  pub key_type : ℕ
  pub battery_type : ℕ
  pub sensor_type : ℕ
  pub key_of : List ℕ → ℕ × Bool
  pub battery_of : List ℕ → ℕ
  pub sensor_of : List ℕ → ℕ × ℤ × ℤ
  pub battery_reporting : Bool
  pub battery_fetching : Bool

-- `struct central_inbound` without its source.
pub data Inbound : Type 0 where
  keepalive : List ℕ → Inbound
  event : ℕ → List ℕ → Inbound

unfoldable pub reconcile_battery : ℕ → ℕ → PipeState → List Call × PipeState
reconcile_battery source level p =
    if level == battery_unknown
    then ([], p)
    else if p.battery_level == level
    then ([], p)
    else (battery_changed source level ∷ [], record p { battery_level = level })

abbrev pub delta_parts : Option ℤ → Option (ℤ × ℤ)
delta_parts none = none
delta_parts (some delta) = some (sensor_udeg_val1 delta, sensor_udeg_val2 delta)

-- `sensor_delta_value`: a sensor that the keymap has not leaves all as it is.
unfoldable pub sensor_delta_value : ℕ → ℤ → List SensorTrack → Option (ℤ × ℤ) × List SensorTrack
unfolding sensor_track_delta sensor_udeg_val1 sensor_udeg_val2
sensor_delta_value sensor_index total_udeg tracks = elim (get_elem? tracks sensor_index) [
  | none ↦ (none, tracks)
  | some track ↦
      let (delta, after) = sensor_track_delta track total_udeg in
      (delta_parts delta, set tracks sensor_index after)
]

abbrev pub rotation_calls : ℕ → ℕ → Option (ℤ × ℤ) → List Call
rotation_calls source sensor_index none = []
rotation_calls source sensor_index (some (val1, val2)) = rotation source sensor_index val1 val2 ∷ []

unfoldable pub deliver_key : ℕ → ℕ → Bool → PipeState → List Call × PipeState
unfolding deliver_verdict
deliver_key source position pressed p =
    let e : KeyEvent = record { source = source; position = position; pressed = pressed } in
    let (events, tracked) = deliver_verdict (key_verdict p.tracked position pressed) e p.tracked in
    if leb position_count position
    then (key_position e ∷ [], p)
    else (key_calls events, record p { tracked = tracked })

-- The pipe that the queue entry came from, one of the link's.
unfoldable pub at_source :
    ℕ → (PipeState → List Call × PipeState) → List PipeState → List Call × List PipeState
at_source source process [] = ([], [])
at_source zero process (p ∷ ps) = let (calls, after) = process p in (calls, after ∷ ps)
at_source (suc source) process (p ∷ ps) =
    let (calls, rest) = at_source source process ps in (calls, p ∷ rest)

-- `reconcile_sensor_totals`, the `n` sensors from `sensor_index` on.
module _ (order : ByteOrder) where
  unfoldable pub sensors_from : ℕ → List ℕ → ℕ → ℕ → List SensorTrack → List Call × List SensorTrack
  unfolding sensor_delta_value
  sensors_from source packet zero sensor_index tracks = ([], tracks)
  sensors_from source packet (suc n) sensor_index tracks =
      let (value, next) =
        sensor_delta_value sensor_index (sensor_total_udeg_at order packet sensor_index) tracks in
      let (later, last) = sensors_from source packet n (suc sensor_index) next in
      (rotation_calls source sensor_index value ++ later, last)

  module _ (z : ZmkEvents) where
    -- The keepalive's part of `central_event_work_fn`.
    unfoldable pub process_keepalive : ℕ → List ℕ → PipeState → List Call × PipeState
    unfolding replay_tracked reconcile_battery sensors_from
    process_keepalive source packet p =
        let (events, tracked) = replay_tracked source (bitmap_of packet) p.tracked in
        let replayed : PipeState = record p { tracked = tracked } in
        let (battery, charged) =
          if z.battery_reporting && not z.battery_fetching
          then reconcile_battery source (battery_level_of packet) replayed
          else ([], replayed) in
        let (rotations, tracks) =
          sensors_from source packet (sensor_count_of packet (length packet)) 0
            charged.sensor_tracks in
        (key_calls events ++ (battery ++ rotations), record charged { sensor_tracks = tracks })

    unfoldable pub process_sensor : ℕ → ℕ → List ℕ → PipeState → List Call × PipeState
    unfolding sensor_delta_value sensor_udeg
    process_sensor source type bytes p =
        let (sensor_index, val1, val2) = z.sensor_of bytes in
        let (value, tracks) =
          sensor_delta_value sensor_index (sensor_udeg val1 val2) p.sensor_tracks in
        (rotation_calls source sensor_index value, record p { sensor_tracks = tracks })

    -- The event's part of `central_event_work_fn`.
    unfoldable pub process_event : ℕ → ℕ → List ℕ → PipeState → List Call × PipeState
    unfolding deliver_key reconcile_battery process_sensor
    process_event source type bytes p =
        if type == z.key_type
        then deliver_key source (z.key_of bytes).0 (z.key_of bytes).1 p
        else if type == z.battery_type && not z.battery_fetching
        then (if z.battery_reporting
            then reconcile_battery source (z.battery_of bytes) p
            else ([], p))
        else if type == z.sensor_type
        then process_sensor source type bytes p
        else (split_event source (other_event type bytes) ∷ [], p)

    unfoldable pub process_inbound : ℕ → Inbound → PipeState → List Call × PipeState
    unfolding process_keepalive process_event
    process_inbound source (keepalive packet) p = process_keepalive source packet p
    process_inbound source (event type bytes) p = process_event source type bytes p

    -- A round of the loop of `central_event_work_fn`.
    unfoldable pub central_event : ℕ → Inbound → List PipeState → List Call × List PipeState
    unfolding at_source process_inbound
    central_event source inbound ps = at_source source (process_inbound source inbound) ps
