-- ===== src/WireLink.antt =====
-- src/wire_link.c: the rings of frames that wait for the UART, the interrupt that empties them, and
-- the received bytes on their way to the parser. One call is one step: a ring takes a whole frame
-- before the interrupt sees any of it.
pub mod Splice
pub mod Stream
pub mod Order
pub mod Receive
use zmk_feature_split_esb.Prelude.{
  ℕ, suc, ◌+◌, ◌-◌, min, Bool, true, false, not, ltb, leb, ◌==◌, if◌then◌else◌, Option, none, some,
  List, [], ◌∷◌, ◌++◌, length, take, drop,
}
use zmk_feature_split_esb.WireFrame.{
  max_payload, max_frame, Encoded, encoded, message_too_long, no_memory, wire_frame_encode,
}

-- wire_tx_event_ring, wire_tx_input_ring and wire_tx_keepalive_ring.
pub data RingName : Type 0 where
  event input keepalive : RingName

abbrev pub same_ring : RingName → RingName → Bool
same_ring event event = true
same_ring event input = false
same_ring event keepalive = false
same_ring input event = false
same_ring input input = true
same_ring input keepalive = false
same_ring keepalive event = false
same_ring keepalive input = false
same_ring keepalive keepalive = true

-- The sizes of the rings in bytes.
abbrev pub ring_capacity : RingName → ℕ
ring_capacity event = max_frame + max_frame
ring_capacity input = max_frame + max_frame
ring_capacity keepalive = max_frame

-- WIRE_LINK_CHUNK_BYTES
abbrev pub chunk_bytes : ℕ
chunk_bytes = 64

-- The bytes in each ring, `wire_tx_frame_ring`, and whether the UART's transmit interrupt is enabled.
pub record WireTx : Type 0 where
  pub rings : RingName → List ℕ
  pub frame_ring : Option RingName
  pub tx_irq : Bool

abbrev pub put_ring : (RingName → List ℕ) → RingName → List ℕ → RingName → List ℕ
put_ring rings r bytes q = if same_ring r q then bytes else rings q

unfoldable pub pick_idle : (RingName → List ℕ) → RingName
pick_idle rings =
    if not (length (rings event) == 0)
    then event
    else if not (length (rings input) == 0)
    then input
    else keepalive

unfoldable pub tx_pick_ring : Option RingName → (RingName → List ℕ) → RingName
unfolding pick_idle
tx_pick_ring (some r) rings = r
tx_pick_ring none rings = pick_idle rings

-- The loop over the bytes that the UART took.
unfoldable pub tx_track_frame : RingName → List ℕ → Option RingName → Option RingName
tx_track_frame ring [] frame_ring = frame_ring
tx_track_frame ring (byte ∷ bytes) frame_ring =
    tx_track_frame ring bytes (if byte == 0 then none else some ring)

-- What the ring hands out in one piece, `contiguous` bytes and one more before its memory ends.
abbrev pub claimed : ℕ → List ℕ → List ℕ
claimed contiguous bytes = take (min chunk_bytes (suc contiguous)) bytes

-- The UART takes `sent` bytes of the chunk, and no more than it is offered; an error is 0.
unfoldable pub tx_take : RingName → List ℕ → WireTx → WireTx
unfolding tx_track_frame
tx_take ring moved l = record l {
  rings = put_ring l.rings ring (drop (length moved) (l.rings ring));
  frame_ring = tx_track_frame ring moved l.frame_ring;
}

-- The transmit loop of `wire_uart_isr`, a round for each time that the UART is ready: the bytes that
-- went out on the wire.
unfoldable pub tx_loop : List (ℕ × ℕ) → WireTx → List ℕ × WireTx
unfolding tx_pick_ring tx_take
tx_loop [] l = ([], l)
tx_loop ((contiguous, sent) ∷ rounds) l =
    let active = tx_pick_ring l.frame_ring l.rings in
    let chunk = claimed contiguous (l.rings active) in
    let moved = take sent chunk in
    let next = tx_take active moved l in
    let rest = tx_loop rounds next in
    if length chunk == 0
    then ([], record l { tx_irq = false })
    else if ltb sent (length chunk)
    then (moved, next)
    else (moved ++ rest.0, rest.1)

-- -ENOTSUP, -EMSGSIZE, -ENOMEM and -ENOBUFS.
pub data SendError : Type 0 where
  not_supported message_size out_of_memory no_buffers : SendError

-- CONFIG_ZMK_SPLIT_ESB_PERIPHERAL_TRANSPORT_WIRE says which end this is.
unfoldable pub can_transmit : Bool → Bool → Bool
can_transmit simplex is_wire_peripheral = if not simplex then true else is_wire_peripheral

unfoldable pub can_receive : Bool → Bool → Bool
can_receive simplex is_wire_peripheral = if not simplex then true else not is_wire_peripheral

unfoldable pub enqueue_encoded : RingName → Encoded → WireTx → Option SendError × WireTx
enqueue_encoded ring message_too_long l = (some message_size, l)
enqueue_encoded ring no_memory l = (some out_of_memory, l)
enqueue_encoded ring (encoded framed) l =
    if ltb (ring_capacity ring - length (l.rings ring)) (length framed)
    then (some no_buffers, l)
    else (none, record l { rings = put_ring l.rings ring (l.rings ring ++ framed); tx_irq = true })

module _ (crc8 : List ℕ → ℕ) (transmits : Bool) where
  unfoldable pub enqueue : RingName → List ℕ → WireTx → Option SendError × WireTx
  unfolding enqueue_encoded
  enqueue ring payload l =
      if not transmits
      then (some not_supported, l)
      else enqueue_encoded ring (wire_frame_encode crc8 payload max_frame) l

  -- `wire_link_send_event`, `wire_link_send_input` and `wire_link_send_keepalive`, by their rings.
  unfoldable pub send : RingName → List ℕ → WireTx → Option SendError × WireTx
  unfolding enqueue
  send ring payload l =
      if ltb max_payload (length payload) then (some message_size, l) else enqueue ring payload l
