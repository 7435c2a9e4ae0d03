-- ===== src/Lib.antt =====
-- A model of zmk-feature-split-esb, a ZMK transport that carries the events of a split keyboard
-- over Nordic's ESB radio, with channel hopping, keepalives that repair lost key events, and a
-- wired relay.
--
-- The parts. A peripheral sends key events and keepalives to the central on its own pipe; the
-- central answers in acknowledgement payloads: beacons, with an epoch that names the channel, and
-- mask updates, with the channels in use. Both ends decide by the same pure policy.
--
-- - HopPolicy (src/hop_policy.c): grades of windows (Grade), channel masks (Mask), the channel for an
--   epoch and the next active one (Channel), the boot survey and the worst channel (Survey), loss
--   and votes over the pipes (Vote), the stored mask (Store). A function `hop_policy_f` is `f`; a
--   pointer argument that it updates is an argument and a part of the result.
-- - Anchors (src/hop.c): the channels that are never masked, as indices of the pool; the central's
--   hop engine takes the answer as a parameter.
-- - Keepalive (src/esb_keepalive.c): the packet's encoder and readers (Codec), the bitmap of pressed
--   positions, the verdict on a key event and the search for differences (Bitmap). Zephyr's
--   little-endian stores and loads are the parameter ByteOrder.
-- - SpscLatch (src/spsc_latch.c): the latch by which the radio's interrupt hands a mask over.
-- - HopPeripheral (src/hop_peripheral.c, with src/hop.c and src/hop_internal.h): the static variables
--   (State), the keepalive tick, the notes of the radio and the retained RAM (Step), packets from
--   the central (Receive). Proofs: Invariant, Sweep, Retained, LinkState.
-- - HopCentral (src/hop_central.c, with src/hop.c): the static variables (State), the mask of active
--   channels and the boot's (Mask), beacons and mask updates (Beacon), the tick that decides on hops
--   (Decision), received packets (Receive). Proofs: Invariant, with its base case in Boot, the
--   devicetree's anchors in Anchors and Kept, and the reachable states in Reach.
-- - Rendezvous: both hop engines in one exchange, a mask update, a hop, a beacon and a tick.
-- - CentralKeys (src/central.c): the key positions tracked for each pipe, live key events and the
--   replay of a keepalive's bitmap.
-- - CentralInput (src/central_input.c): the input keys and motion totals tracked for each pipe (State),
--   live events (Deliver), the reconciliation with a keepalive (Reconcile). Proofs: Laws, Told,
--   Agree, Distinct.
-- - CentralPipes (src/central.c): what the central keeps for each pipe, the queue of events and
--   keepalives (Inbound), the check for silent peripherals and the status (Staleness). What is handed
--   to ZMK is a list of calls. Proofs: Shown, with Receipts and Runs, and Settled, with Released.
-- - PeripheralInput (src/peripheral_input.c): the held keys that a peripheral lists in its keepalive.
--   Proofs: Notes, Table, and Link, which follows them into the central's table.
-- - PeripheralCore (src/peripheral.c, src/esb_hid_state.h): the pressed positions, the totals of
--   rotation, the keepalive, the queue of commands (Commands) and the word of the HID state. Sync
--   follows the positions into the central, on tables that keep their sizes (Sizes).
-- - PeripheralMotion (src/esb_peripheral.c): the running totals of lossy motion. Proofs: Slots, and
--   EndToEnd, which follows one axis into the central. PeripheralReport: the report of an event and
--   what the radio hands over. Proof: Acks.
-- - LinkPeripheral (src/esb_link_peripheral.c, src/esb_link.c, src/esb_link_hfclk.c): the radio
--   settings that wait (Settings), the restarts of a failed packet (Restarts), the clock (Clock).
-- - RelayPointer (src/esb_hid_relay_pointer.c): the pointer reports that the central relays; proofs in
--   Buttons and Totals. RelayDongle (src/esb_hid_relay_peripheral.c): their delivery to the dongle's
--   host, whose answers are a parameter; proofs in Rounds and Shown.
-- - EventWire (src/esb_wire.c): the codec of events. EventWire.Batch (src/esb_batch.c): input events in
--   one packet, and the loop of src/central.c that takes it apart. ZMK's event types and their sizes
--   are the parameter EventTypes.
-- - LinkReply (src/esb_link_central.c): the replies that leave with an acknowledgement, for a pipe
--   that is no relay. Proofs: Order, and Fresh, with History.
-- - Totals (src/esb_motion_total.h, src/esb_sensor_sync.c): running totals of motion and rotation and
--   the gaps that a receiver forwards (Motion, Sensor).
-- - Cobs (src/cobs.c): the byte stuffing of the wired link's frames, the encoder and the decoder in
--   place (Decode). WireFrame (src/wire_frame.c): frames and their parser; Zephyr's CRC is a parameter.
--   WireLink (src/wire_link.c): the transmit rings, the loops of the UART's interrupt and the sends.
--   Proofs: Order, on Stream and Splice; Receive has the receive side.
-- - Prelude: the shared names, lists, integers and bits. Tests: the theorems at concrete inputs.
--
-- Conventions. Numbers are ℕ; a narrowing cast and a wrap are written out as `% 2 ^ w`, signed
-- values are ℤ with the two's complement cast `of_word`. Indices and sizes, which are `size_t` and
-- stay at a few hundred, do not wrap. A read out of bounds gives 0 and a write out of bounds does
-- nothing; the source makes neither on arrays of the sizes that it declares. A loop counts down
-- its rounds. The survey has fuel for one round more than the pool has channels, and each round
-- masks one; the replay of a bitmap has 64 rounds, and each goes on behind a position below 64;
-- the decoder has a round for each byte of its buffer, and each takes one at least, and so has the
-- relay dongle for a payload. A function that an interrupt or a thread runs is one step, and so is
-- an atomic access; what the radio answers to a retune is the argument `tunes`.
--
-- Not modelled: the radio, UART and USB drivers and ZMK's own event handling, which the repository
-- only calls; logging, statistics, shell output and assertions; kernel work queues and timers; the
-- roles of the wired link; the submission of packets and its stall recovery on the peripheral; the
-- replies of relay pipes and the listener that stages keyboard reports for the relay; the dispatch of
-- packets and the commands of src/central.c.
pub mod Prelude
pub mod ByteOrder
pub mod SpscLatch
pub mod HopPolicy
pub mod Anchors
pub mod Keepalive
pub mod HopPeripheral
pub mod HopCentral
pub mod Rendezvous
pub mod CentralKeys
pub mod CentralInput
pub mod CentralPipes
pub mod PeripheralInput
pub mod PeripheralCore
pub mod PeripheralMotion
pub mod PeripheralReport
pub mod LinkPeripheral
pub mod RelayPointer
pub mod RelayDongle
pub mod EventWire
pub mod LinkReply
pub mod Cobs
pub mod WireFrame
pub mod WireLink
pub mod Totals
pub mod Tests
