-- ===== src/Tests/EventWire.antt =====
-- src/esb_wire.c and src/esb_batch.c.
use zmk_feature_split_esb.Prelude.{
  ◌<◌, ◌≡◌, refl, true, false, if◌then◌else◌, ◌==◌, none, some, [], ◌∷◌, ◌++◌, map, length, take,
  All, arith,
}
use zmk_feature_split_esb.Prelude.Int.{pos, negsuc}
use zmk_feature_split_esb.CentralInput.State.{InputEvent}
use zmk_feature_split_esb.EventWire.{
  input_event, EventTypes, encode_event, decode_event, payload_of, input_wire,
}
use zmk_feature_split_esb.EventWire.RoundTrip.{
  IsTypes, IsInput, IsEvent, encoded, decode_event-encode_event, decode_event-cut_short,
}
use zmk_feature_split_esb.EventWire.Batch.{Batch, batch_max}
use zmk_feature_split_esb.EventWire.Coalesced.{
  Fits, IsOpen, report_events, events_of_all, report_events-ingest_events,
}

abbrev pub event_types : EventTypes
event_types = record {
  slots = 4;
  member_size = λ type. if type == 1 then 20 else 2;
  input_type = 2;
}

event_types-IsTypes : IsTypes event_types
event_types-IsTypes = record { bytes = omega arith; input = omega arith }

abbrev move : InputEvent
move = record { reg = 0; type = 2; code = 1; value = negsuc 4; sync = 1 }

abbrev move_x : InputEvent
move_x = record { reg = 0; type = 2; code = 0; value = pos 300; sync = 0 }

move-IsInput : IsInput move
move-IsInput = record { code_fits = omega arith; value_fits = (omega arith, omega arith) }

move_x-IsInput : IsInput move_x
move_x-IsInput = record { code_fits = omega arith; value_fits = (omega arith, omega arith) }

move-IsEvent : IsEvent event_types (input_event move)
unfolding IsEvent
move-IsEvent = move-IsInput

ten_bytes : length (encoded event_types (input_event move)) ≡ 10
unfolding encoded payload_of input_wire
ten_bytes = refl

decode_event-encode_event_example :
    (encode_event event_types 32 (input_event move) ≡ some (encoded event_types (input_event move)))
    × (decode_event event_types (encoded event_types (input_event move) ++ (7 ∷ []))
        ≡ some (input_event move, length (encoded event_types (input_event move))))
decode_event-encode_event_example =
    decode_event-encode_event event_types event_types-IsTypes 32 (input_event move) (7 ∷ [])
      move-IsEvent (omega (arith, ten_bytes))

decode_event-cut_short_example :
    (9 < length (encoded event_types (input_event move))
      → encode_event event_types 9 (input_event move) ≡ none)
    × (4 < length (encoded event_types (input_event move))
        → decode_event event_types (take 4 (encoded event_types (input_event move))) ≡ none)
decode_event-cut_short_example =
    decode_event-cut_short event_types event_types-IsTypes 9 4 (input_event move) move-IsEvent

abbrev batch : Batch
batch = record { events = []; wants_ack = false }

batch-IsOpen : IsOpen event_types event_types-IsTypes 32 1 batch
unfolding batch_max
batch-IsOpen = record { fit = tt; room = omega arith }

report_events-ingest_events_example :
    (events_of_all event_types event_types-IsTypes 32 1
          (report_events event_types event_types-IsTypes 32 1
            ((move_x, false) ∷ (move, true) ∷ [])
            batch).0
        ++ map input_event
            (report_events event_types event_types-IsTypes 32 1
              ((move_x, false) ∷ (move, true) ∷ [])
              batch).1.events
      ≡ map input_event ([] ++ (move_x ∷ move ∷ [])))
    × All
        (Fits event_types event_types-IsTypes 32 1)
        (report_events event_types event_types-IsTypes 32 1
          ((move_x, false) ∷ (move, true) ∷ [])
          batch).0
    × IsOpen event_types event_types-IsTypes 32 1
        (report_events event_types event_types-IsTypes 32 1
          ((move_x, false) ∷ (move, true) ∷ [])
          batch).1
report_events-ingest_events_example =
    report_events-ingest_events event_types event_types-IsTypes 32 1
      ((move_x, false) ∷ (move, true) ∷ []) batch batch-IsOpen (move_x-IsInput, (move-IsInput, tt))
