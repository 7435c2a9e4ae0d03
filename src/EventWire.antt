-- ===== src/EventWire.antt =====
-- src/esb_wire.c: the codec of the split events. A returned length 0 is `none`.
pub mod RoundTrip
pub mod Batch
pub mod Coalesced
use zmk_feature_split_esb.Prelude.{
  ℕ, ◌+◌, ◌*◌, ◌/◌, ◌%◌, ◌^◌, Bool, true, false, ◌||◌, ltb, leb, ◌==◌, if◌then◌else◌, Option, none,
  some, List, [], ◌∷◌, ◌++◌, length, get_or, take, drop,
}
use zmk_feature_split_esb.Prelude.Int.{ℤ, to_word, of_word}
use zmk_feature_split_esb.CentralInput.State.{InputEvent}

-- An event: an input event, or another type with the bytes of its union member.
pub data Event : Type 0 where
  input_event : InputEvent → Event
  other_event : ℕ → List ℕ → Event

-- `struct input_wire`, as the little-endian cores lay it out.
unfoldable pub input_wire : InputEvent → List ℕ
input_wire e =
    let value = to_word 32 e.value in
    e.reg
    ∷ e.sync
    ∷ e.type
    ∷ e.code % 256
    ∷ e.code / 256 % 256
    ∷ value % 256
    ∷ value / 2 ^ 8 % 256
    ∷ value / 2 ^ 16 % 256
    ∷ value / 2 ^ 24 % 256
    ∷ []

unfoldable pub read_input_wire : List ℕ → InputEvent
read_input_wire bytes =
    let byte = λ (i : ℕ). get_or bytes i 0 in
    record {
      reg = byte 0;
      sync = byte 1;
      type = byte 2;
      code = byte 3 + byte 4 * 2 ^ 8;
      value = of_word 32 (byte 5 + byte 6 * 2 ^ 8 + byte 7 * 2 ^ 16 + byte 8 * 2 ^ 24);
    }

-- The constants of ZMK's event types: how many slots the table of sizes has, the size of a type's
-- union member (0 for a type without one), and the type of an input event.
pub record EventTypes : Type 0 where
  pub slots : ℕ
  pub member_size : ℕ → ℕ
  pub input_type : ℕ

module _ (z : EventTypes) where
  -- `payload_size`; 0 beyond the table, which both sides test beside it.
  unfoldable pub payload_size : ℕ → ℕ
  payload_size type =
      if leb z.slots type then 0 else if type == z.input_type then 9 else z.member_size type

  unfoldable pub type_of : Event → ℕ
  type_of (input_event e) = z.input_type
  type_of (other_event type bytes) = type

  unfoldable pub payload_of : Event → List ℕ
  unfolding input_wire
  payload_of (input_event e) = input_wire e
  payload_of (other_event type bytes) = bytes

  unfoldable pub encode_event : ℕ → Event → Option (List ℕ)
  unfolding payload_size type_of payload_of
  encode_event out_cap event =
      let type : ℕ = type_of event % 256 in
      let size = payload_size type in
      if size == 0
      then none
      else if ltb out_cap (1 + size)
      then none
      else some (type ∷ take size (payload_of event))

  -- The event of this type read from its payload.
  unfoldable pub read_event : ℕ → List ℕ → Event
  unfolding read_input_wire payload_size
  read_event type payload =
      if type == z.input_type
      then input_event (read_input_wire payload)
      else other_event type (take (payload_size type) payload)

  -- The event at the front of the bytes, and how many it took.
  unfoldable pub decode_event : List ℕ → Option (Event × ℕ)
  unfolding payload_size read_event
  decode_event [] = none
  decode_event (type ∷ payload) =
      let size = payload_size type in
      if size == 0
      then none
      else if ltb (length payload) size
      then none
      else some (read_event type payload, 1 + size)
