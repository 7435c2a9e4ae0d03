-- ===== src/CentralPipes/Shown/Receipts.antt =====
-- src/central.c: what an entry of the queue tells who listens to its pipe.
use zmk_feature_split_esb.Prelude.{
  ℕ, zero, suc, ◌≡◌, refl, ◌∙◌, ap, Bool, ◌&&◌, not, leb, ◌==◌, if◌then◌else◌, Option, none, some,
  List, [], ◌∷◌, ◌++◌, length, if_either, arith,
}
use zmk_feature_split_esb.Prelude.Int.{ℤ}
use zmk_feature_split_esb.ByteOrder.{ByteOrder}
use zmk_feature_split_esb.Keepalive.Bitmap.{position_count, key_verdict}
use zmk_feature_split_esb.EventWire.{other_event}
use zmk_feature_split_esb.CentralKeys.{KeyEvent, deliver_verdict, replay_tracked}
use zmk_feature_split_esb.Keepalive.Codec.{
  sensor_total_udeg_at, bitmap_of, battery_level_of, sensor_count_of,
}
use zmk_feature_split_esb.Totals.Sensor.{SensorTrack, sensor_udeg}
use zmk_feature_split_esb.CentralPipes.{
  battery_unknown, PipeState, key_position, split_event, battery_changed, key_calls,
}
use zmk_feature_split_esb.CentralPipes.Inbound.{
  ZmkEvents, Inbound, keepalive, event, reconcile_battery, rotation_calls, sensor_delta_value,
  deliver_key, sensors_from, process_keepalive, process_sensor, process_event, process_inbound,
}
use zmk_feature_split_esb.CentralPipes.Shown.{
  Listener, hear_all, hear_all-append, Shown, Tells, quiet_lem, Tells-trans, key_calls_lem,
}

rotation_lem :
    (source sensor_index : ℕ) (value : Option (ℤ × ℤ)) (v : Listener)
    → hear_all (rotation_calls source sensor_index value) v ≡ v
rotation_lem source sensor_index none v = refl
rotation_lem source sensor_index (some (val1, val2)) v = refl

module _ (order : ByteOrder) (z : ZmkEvents) where
  reconcile_battery-Tells :
      (source level : ℕ) (p : PipeState) (v : Listener)
      → Shown source p v
      → Tells source v (reconcile_battery source level p)
  unfolding reconcile_battery
  reconcile_battery-Tells source level p v s =
      if_either (Tells source v) (level == battery_unknown)
        (quiet_lem source v [] p p refl refl refl s)
        (if_either (Tells source v) (p.battery_level == level)
          {b = (battery_changed source level ∷ [], record p { battery_level = level })}
          (quiet_lem source v [] p p refl refl refl s)
          (record {
            own = (s.0, ground arith);
            others = λ k n. (refl, ground (arith, n));
            same_status = refl;
          }))

  sensors_from-silent :
      (source : ℕ) (packet : List ℕ) (n sensor_index : ℕ) (tracks : List SensorTrack) (v : Listener)
      → hear_all (sensors_from order source packet n sensor_index tracks).0 v ≡ v
  unfolding sensors_from
  sensors_from-silent source packet zero sensor_index tracks v = refl
  sensors_from-silent source packet (suc n) sensor_index tracks v =
      let value =
        sensor_delta_value sensor_index (sensor_total_udeg_at order packet sensor_index) tracks in
      hear_all-append (rotation_calls source sensor_index value.0) _ v
      ∙ ap (hear_all (sensors_from order source packet n (suc sensor_index) value.1).0)
          (rotation_lem source sensor_index value.0 v)
      ∙ sensors_from-silent source packet n (suc sensor_index) value.1 v

  process_keepalive-Tells :
      (source : ℕ) (packet : List ℕ) (p : PipeState) (v : Listener)
      → Shown source p v
      → Tells source v (process_keepalive order z source packet p)
  unfolding process_keepalive
  process_keepalive-Tells source packet p v s =
      let r = replay_tracked source (bitmap_of packet) p.tracked in
      let replayed : PipeState = record p { tracked = r.1 } in
      let b =
        if z.battery_reporting && not z.battery_fetching
        then reconcile_battery source (battery_level_of packet) replayed
        else ([], replayed) in
      let t =
        sensors_from order source packet (sensor_count_of packet (length packet)) 0
          b.1.sensor_tracks in
      let first = quiet_lem source v (key_calls r.0) p replayed (key_calls_lem r.0 v) refl refl s in
      let second : Tells source (hear_all (key_calls r.0) v) b =
        if_either (Tells source (hear_all (key_calls r.0) v))
          (z.battery_reporting && not z.battery_fetching)
          (reconcile_battery-Tells source (battery_level_of packet) replayed _ first.own)
          (quiet_lem source _ [] replayed replayed refl refl refl first.own) in
      let third =
        quiet_lem source (hear_all b.0 (hear_all (key_calls r.0) v)) t.0 b.1
          (record b.1 { sensor_tracks = t.1 })
          (sensors_from-silent source packet _ 0 b.1.sensor_tracks _) refl refl second.own in
      Tells-trans source v (key_calls r.0) (b.0 ++ t.0) replayed
        (record b.1 { sensor_tracks = t.1 }) first
        (Tells-trans source (hear_all (key_calls r.0) v) b.0 t.0 b.1
          (record b.1 { sensor_tracks = t.1 }) second third)

  deliver_key-Tells :
      (source position : ℕ) (pressed : Bool) (p : PipeState) (v : Listener)
      → Shown source p v
      → Tells source v (deliver_key source position pressed p)
  unfolding deliver_key
  deliver_key-Tells source position pressed p v s =
      let e : KeyEvent = record { source = source; position = position; pressed = pressed } in
      let r = deliver_verdict (key_verdict p.tracked position pressed) e p.tracked in
      if_either (Tells source v) (leb position_count position)
        (quiet_lem source v (key_position e ∷ []) p p refl refl refl s)
        (quiet_lem source v (key_calls r.0) p (record p { tracked = r.1 }) (key_calls_lem r.0 v)
          refl refl s)

  process_sensor-Tells :
      (source type : ℕ) (bytes : List ℕ) (p : PipeState) (v : Listener)
      → Shown source p v
      → Tells source v (process_sensor order z source type bytes p)
  unfolding process_sensor
  process_sensor-Tells source type bytes p v s =
      let told = z.sensor_of bytes in
      let value = sensor_delta_value told.0 (sensor_udeg told.1 told.2) p.sensor_tracks in
      quiet_lem source v (rotation_calls source told.0 value.0) p
        (record p { sensor_tracks = value.1 }) (rotation_lem source told.0 value.0 v) refl refl s

  pub process_inbound-Tells :
      (source : ℕ) (inbound : Inbound) (p : PipeState) (v : Listener)
      → Shown source p v
      → Tells source v (process_inbound order z source inbound p)
  unfolding process_inbound process_event
  process_inbound-Tells source (keepalive packet) p v s =
      process_keepalive-Tells source packet p v s
  process_inbound-Tells source (event type bytes) p v s =
      let charge =
        if z.battery_reporting then reconcile_battery source (z.battery_of bytes) p else ([], p) in
      if_either (Tells source v) (type == z.key_type)
        (deliver_key-Tells source (z.key_of bytes).0 (z.key_of bytes).1 p v s)
        (if_either (Tells source v) (type == z.battery_type && not z.battery_fetching) {a = charge}
          (if_either (Tells source v) z.battery_reporting
            (reconcile_battery-Tells source (z.battery_of bytes) p v s)
            (quiet_lem source v [] p p refl refl refl s))
          (if_either (Tells source v) (type == z.sensor_type)
            (process_sensor-Tells source type bytes p v s)
            (quiet_lem source v (split_event source (other_event type bytes) ∷ []) p p refl refl
              refl s)))
