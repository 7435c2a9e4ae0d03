-- ===== src/Tests/Peripheral.antt =====
-- src/peripheral.c and src/esb_peripheral.c.
use zmk_feature_split_esb.Prelude.{
  ℕ, ◌≡◌, refl, true, false, List, [], ◌∷◌, ◌++◌, length, replicate, arith,
}
use zmk_feature_split_esb.Prelude.Int.{pos}
use zmk_feature_split_esb.EventWire.{Event, other_event, input_event}
use zmk_feature_split_esb.HopPolicy.Mask.{mask_set}
use zmk_feature_split_esb.Keepalive.Bitmap.{bitmap_set}
use zmk_feature_split_esb.PeripheralCore.{
  Peripheral, Layout, note_key_event, note_split_event, peripheral_encode_event,
}
use zmk_feature_split_esb.PeripheralCore.Commands.{
  Commands, Command, deliver, work, run, accepted, IsAwake, run-accepted,
}
use zmk_feature_split_esb.PeripheralCore.Sync.{
  IsKept, after_events, IsSynced, peripheral_keepalive_fill-last_reported,
}
use zmk_feature_split_esb.PeripheralReport.{Transport, report_event}
use zmk_feature_split_esb.PeripheralReport.Acks.{IsMarked, IsReported, report_event-IsReported}
use zmk_feature_split_esb.Tests.CentralInput.{press}
use zmk_feature_split_esb.Tests.CentralPipes.{pipe_state, zmk_events}
use zmk_feature_split_esb.Tests.EventWire.{event_types}
use zmk_feature_split_esb.Tests.LittleEndian.{little_endian}

abbrev layout : Layout
layout = record {
  types = event_types;
  key_type = 0;
  sensor_type = 1;
  key_of = λ bytes. (5, true);
  sensor_of = λ bytes. (0, pos 15, pos 0);
  with_value = λ val1 val2 bytes. bytes;
}

abbrev core : Peripheral
core = record {
  pressed_positions = replicate 8 0;
  sensor_total_udeg = [];
  held_input_keys = 0 ∷ [];
}

abbrev events : List Event
events = other_event 0 (0 ∷ 0 ∷ []) ∷ []

pressed :
    after_events layout 1 40 events core ≡ record core { pressed_positions = 32 ∷ replicate 7 0 }
unfolding after_events peripheral_encode_event note_split_event note_key_event bitmap_set mask_set
pressed = refl

core-IsKept : IsKept [] (after_events layout 1 40 events core)
core-IsKept = rw (pressed) (record { rotations = tt; motions = tt })

peripheral_keepalive_fill-last_reported_example :
    (packet : List ℕ) × IsSynced layout 1 40 little_endian zmk_events true 80 40 1 10 0 [] events
      core pipe_state packet
peripheral_keepalive_fill-last_reported_example =
    peripheral_keepalive_fill-last_reported layout 1 40 little_endian zmk_events true 80 40 1 10 0
      [] events core pipe_state refl (omega arith) (omega arith) core-IsKept (omega arith)

abbrev commands : Commands
commands = record { queue = []; submitted = false }

abbrev steps : List Command
steps =
    deliver (1 ∷ 2 ∷ [])
    ∷ deliver (3 ∷ [])
    ∷ deliver (4 ∷ 5 ∷ [])
    ∷ work
    ∷ deliver (6 ∷ 7 ∷ [])
    ∷ []

run-accepted_example :
    ((run 2 1 steps commands).0 ++ (run 2 1 steps commands).1.queue
      ≡ commands.queue ++ accepted 2 1 steps (length commands.queue))
    × IsAwake (run 2 1 steps commands).1
run-accepted_example = run-accepted 2 1 steps commands (λ e. refl)

-- An event waits in the batch, and the key is not lossy.
abbrev transport : Transport
transport = record {
  core = core;
  motion_slots = [];
  batch = record { events = []; wants_ack = false };
}

report_event-IsReported_example :
    IsMarked layout
      ((2, 0) ∷ [])
      1
      2
      32
      40
      (report_event layout ((2, 0) ∷ []) 1 2 32 40 (input_event press) transport).1.batch
    × IsReported layout
        ((2, 0) ∷ [])
        1
        2
        32
        40
        (input_event press)
        transport
        (report_event layout ((2, 0) ∷ []) 1 2 32 40 (input_event press) transport).0
report_event-IsReported_example =
    report_event-IsReported layout ((2, 0) ∷ []) 1 2 32 40 (input_event press) transport refl
