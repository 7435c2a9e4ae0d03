-- ===== src/EventWire/Batch.antt =====
-- src/esb_batch.c: input events coalesced into one packet; and the loop of `central_ingest_packet` of
-- src/central.c that takes a packet's events apart.
use zmk_feature_split_esb.Prelude.{
  ℕ, zero, suc, ◌-◌, ◌/◌, Bool, true, false, leb, ◌==◌, if◌then◌else◌, Option, none, some, List, [],
  ◌∷◌, ◌++◌, length, drop,
}
use zmk_feature_split_esb.Prelude.Bits.{test_bit}
use zmk_feature_split_esb.CentralInput.State.{InputEvent}
use zmk_feature_split_esb.EventWire.{Event, input_event, EventTypes, encode_event, decode_event}

pub record Batch : Type 0 where
  pub events : List InputEvent
  pub wants_ack : Bool

-- What `esb_link_send` is called with.
pub record Packet : Type 0 where
  pub bytes : List ℕ
  pub wants_ack : Bool

-- `max_payload` is CONFIG_ZMK_SPLIT_ESB_MAX_PAYLOAD and `input_ev_key` Zephyr's INPUT_EV_KEY.
module _ (z : EventTypes) (max_payload input_ev_key : ℕ) where
  -- ESB_BATCH_MAX
  unfoldable pub batch_max : ℕ
  batch_max = max_payload / 10

  abbrev pub bytes_or : Option (List ℕ) → List ℕ
  bytes_or none = []
  bytes_or (some bytes) = bytes

  -- The loop over the events, behind the bytes that are there.
  unfoldable pub append_events : List InputEvent → List ℕ → List ℕ
  unfolding encode_event
  append_events [] wire = wire
  append_events (e ∷ es) wire =
      append_events es
        (wire ++ bytes_or (encode_event z (max_payload - length wire) (input_event e)))

  -- What is sent, if anything; the answer of the send is the caller's, and the batch is emptied
  -- whatever it is.
  unfoldable pub batch_flush : Batch → Option Packet × Batch
  unfolding append_events
  batch_flush batch = if length batch.events == 0 then (none, batch) else (
    some (record { bytes = append_events batch.events []; wants_ack = batch.wants_ack }),
    record { events = []; wants_ack = false },
  )

  unfoldable pub batch_flush_due : Batch → InputEvent → Bool
  unfolding batch_max
  batch_flush_due batch event =
      if test_bit event.sync 0
      then true
      else if event.type == input_ev_key
      then true
      else leb batch_max (length batch.events)

  unfoldable pub batch_report_event : Batch → InputEvent → Bool → Option Packet × Batch
  unfolding batch_flush batch_flush_due
  batch_report_event batch event wants_ack =
      let noted : Batch = record {
        events = batch.events ++ (event ∷ []);
        wants_ack = if wants_ack then true else batch.wants_ack;
      } in
      if batch_flush_due noted event then batch_flush noted else (none, noted)

  -- The events of the packet in order, up to the first that cannot be decoded; `fuel` rounds at most.
  unfoldable pub ingest_events : ℕ → List ℕ → List Event
  unfolding decode_event
  ingest_events zero bytes = []
  ingest_events (suc fuel) bytes = elim (decode_event z bytes) [
    | none ↦ []
    | some (event, consumed) ↦ event ∷ ingest_events fuel (drop consumed bytes)
  ]
