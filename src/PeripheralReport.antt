-- ===== src/PeripheralReport.antt =====
-- src/esb_peripheral.c: the events that ZMK reports, for a transport with lossy codes, and what the
-- radio hands over. `batch` is the static of the file; the answer of `esb_link_send` is not told.
pub mod Acks
use zmk_feature_split_esb.Prelude.{
  ℕ, ◌+◌, ◌%◌, ◌^◌, Bool, true, false, ◌&&◌, not, ◌==◌, if◌then◌else◌, Option, none, some, List, [],
  ◌∷◌,
}
use zmk_feature_split_esb.ByteOrder.{ByteOrder}
use zmk_feature_split_esb.EventWire.{Event, input_event, other_event}
use zmk_feature_split_esb.EventWire.Batch.{Batch, Packet, batch_report_event}
use zmk_feature_split_esb.CentralInput.State.{InputEvent}
use zmk_feature_split_esb.PeripheralCore.{
  Peripheral, Layout, peripheral_encode_event, peripheral_keepalive_fill,
}
use zmk_feature_split_esb.PeripheralCore.Commands.{Commands, deliver_command}
use zmk_feature_split_esb.PeripheralInput.{note_event}
use zmk_feature_split_esb.PeripheralMotion.{MotionSlot, motion_to_total, motion_totals_snapshot}

-- The cells of the devicetree's `lossy-codes`, in pairs.
unfoldable pub input_is_lossy : List (ℕ × ℕ) → ℕ → ℕ → Bool
input_is_lossy [] type code = false
input_is_lossy ((cell, next_cell) ∷ cells) type code =
    let rest = input_is_lossy cells type code in
    if cell % 256 == type && next_cell % 2 ^ 16 == code then true else rest

unfoldable pub event_wants_ack : List (ℕ × ℕ) → Event → Bool
unfolding input_is_lossy
event_wants_ack cells (input_event e) = not (input_is_lossy cells e.type e.code)
event_wants_ack cells (other_event type bytes) = true

-- The statics that a report changes.
pub record Transport : Type 0 where
  pub core : Peripheral
  pub motion_slots : List MotionSlot
  pub batch : Batch

-- What a report sends: nothing yet, a packet, or -ENOTSUP.
pub data Sent : Type 0 where
  waits unsupported : Sent
  packet : Packet → Sent

abbrev pub sent_batch : Option Packet → Sent
sent_batch none = waits
sent_batch (some p) = packet p

abbrev pub sent_wire : Option (List ℕ) → Bool → Sent
sent_wire none wants_ack = unsupported
sent_wire (some wire) wants_ack = packet (record { bytes = wire; wants_ack = wants_ack })

-- The event that the batch takes.
unfoldable pub sent_input :
    List (ℕ × ℕ) → ℕ → InputEvent → List MotionSlot → InputEvent × List MotionSlot
unfolding event_wants_ack motion_to_total
sent_input cells input_ev_rel e slots =
    let total = motion_to_total input_ev_rel e slots in
    if not (event_wants_ack cells (input_event e)) then total else (e, slots)

-- `wire_size` is ESB_WIRE_MAX_EVENT_SIZE.
module _ (z : Layout) (cells : List (ℕ × ℕ))
    (input_ev_key input_ev_rel max_payload wire_size : ℕ) where
  unfoldable pub report_event : Event → Transport → Sent × Transport
  unfolding event_wants_ack sent_input note_event batch_report_event peripheral_encode_event
  report_event (input_event e) t =
      let core : Peripheral = record t.core {
        held_input_keys = note_event input_ev_key e t.core.held_input_keys;
      } in
      let (event, slots) = sent_input cells input_ev_rel e t.motion_slots in
      let (flushed, batch) =
        batch_report_event z.types max_payload input_ev_key t.batch event
          (event_wants_ack cells (input_event e)) in
      (sent_batch flushed, record { core = core; motion_slots = slots; batch = batch })
  report_event (other_event type bytes) t =
      let (wire, core) =
        peripheral_encode_event z input_ev_key wire_size (other_event type bytes) t.core in
      (sent_wire wire (event_wants_ack cells (other_event type bytes)), record t { core = core })

unfoldable pub link_keepalive_fill : ByteOrder → Bool → ℕ → ℕ → ℕ → ℕ → Transport → List ℕ × ℕ
unfolding motion_totals_snapshot peripheral_keepalive_fill
link_keepalive_fill order reporting charge link_cost out_size state t =
    peripheral_keepalive_fill order reporting charge out_size state link_cost
      (motion_totals_snapshot t.motion_slots) t.core

-- Where what the radio receives goes: to the wired peer, to the HID relay, or to the command queue.
pub data Received : Type 0 where
  forwarded relayed : List ℕ → Received
  commanded : Commands → Received

unfoldable pub on_rx : ℕ → ℕ → (ℕ → Bool) → Bool → ℕ → List ℕ → Commands → Received
unfolding deliver_command
on_rx command_size queue_size relay_owns_pipe self_is_relay pipe bytes c =
    if relay_owns_pipe pipe
    then forwarded bytes
    else if self_is_relay
    then relayed bytes
    else commanded (deliver_command command_size queue_size bytes c)
