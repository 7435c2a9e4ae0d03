-- ===== src/CentralPipes.antt =====
-- src/central.c: what the central keeps for each pipe beside the input tables, the events that wait
-- for the work queue, and the check for silent peripherals. The arrays of the file are one record for
-- each pipe; what a function hands to ZMK is a list of calls, in their order.
pub mod Inbound
pub mod Staleness
pub mod Shown
pub mod Released
pub mod Settled
use zmk_feature_split_esb.Prelude.{
  ℕ, ◌+◌, Bool, true, false, not, ltb, leb, ◌==◌, if◌then◌else◌, Option, none, some, List, [], ◌∷◌,
  ◌++◌,
}
use zmk_feature_split_esb.Prelude.Int.{ℤ}
use zmk_feature_split_esb.EventWire.{Event}
use zmk_feature_split_esb.CentralInput.State.{Pipe}
use zmk_feature_split_esb.CentralKeys.{KeyEvent}
use zmk_feature_split_esb.Totals.Sensor.{SensorTrack}

-- ESB_KEEPALIVE_BATTERY_UNKNOWN
abbrev pub battery_unknown : ℕ
battery_unknown = 255

-- ZMK_SPLIT_TRANSPORT_CONNECTIONS_STATUS_*
pub data Connections : Type 0 where
  disconnected some_connected all_connected : Connections

-- One pipe's entries of `tracked_positions`, the tables of src/central_input.c, `sensor_tracks`,
-- `tracked_battery_levels`, `pipe_stale` and `pipe_connected`.
pub record PipeState : Type 0 where
  pub tracked : List ℕ
  pub input : Pipe
  pub sensor_tracks : List SensorTrack
  pub battery_level : ℕ
  pub stale : Bool
  pub connected : Bool

-- A call of ZMK: its handler of split events with a key position, with the rotation of a sensor in
-- two parts, or with another event; an input device's disconnect; an event raised for a battery or a
-- peripheral; the status callback.
pub data Call : Type 0 where
  key_position : KeyEvent → Call
  rotation : ℕ → ℕ → ℤ → ℤ → Call
  split_event : ℕ → Event → Call
  input_disconnected : ℕ → ℕ → Call
  battery_changed : ℕ → ℕ → Call
  peripheral_changed : ℕ → Bool → Call
  status_changed : Connections → Call

abbrev pub key_calls : List KeyEvent → List Call
key_calls [] = []
key_calls (e ∷ es) = key_position e ∷ key_calls es

abbrev pub input_calls : ℕ → List ℕ → List Call
input_calls pipe [] = []
input_calls pipe (reg ∷ regs) = input_disconnected pipe reg ∷ input_calls pipe regs
