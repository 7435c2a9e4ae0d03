-- ===== src/PeripheralCore/Sync.antt =====
-- src/peripheral.c, src/esb_keepalive.c and src/central.c together: the key positions that a
-- peripheral has reported pressed, through its keepalive, in what the central tracks.
use zmk_feature_split_esb.Prelude.{
  ℕ, zero, suc, ◌/◌, ◌%◌, ◌^◌, ◌≤◌, ◌<◌, ◌≡◌, refl, sym, ◌∙◌, ap, Bool, ◌&&◌, not, ◌||◌, ◌==◌,
  if◌then◌else◌, if_either, if_split, List, [], ◌∷◌, length, take, get_or, All, arith,
}
use zmk_feature_split_esb.Prelude.Int.{IsInt}
use zmk_feature_split_esb.ByteOrder.{ByteOrder}
use zmk_feature_split_esb.EventWire.{Event, input_event, other_event}
use zmk_feature_split_esb.HopPolicy.Mask.{mask_get}
use zmk_feature_split_esb.Keepalive.Bitmap.{position_count, bitmap_get, bitmap_get-bitmap_set}
use zmk_feature_split_esb.Keepalive.Codec.{
  HeldKey, MotionTotal, keepalive_length, bitmap_of, battery_level_of,
}
use zmk_feature_split_esb.Keepalive.Codec.RoundTrip.{IsFilled, keepalive_encode-Reads}
use zmk_feature_split_esb.CentralKeys.{replay_tracked}
use zmk_feature_split_esb.CentralKeys.Laws.{SameKeys, replay_tracked-IsAlternating}
use zmk_feature_split_esb.CentralPipes.{battery_unknown, PipeState}
use zmk_feature_split_esb.CentralPipes.Inbound.{ZmkEvents, reconcile_battery, process_keepalive}
use zmk_feature_split_esb.PeripheralInput.{held_keys, held_entry_unpack}
use zmk_feature_split_esb.PeripheralCore.{
  Peripheral, Layout, peripheral_battery_level, note_key_event, note_split_event,
  peripheral_encode_event, keepalive_snapshot, written, peripheral_keepalive_fill,
}
use zmk_feature_split_esb.PeripheralCore.Sizes.{IsSized, length-held_keys, note_split_event-IsSized}

held_keys-codes : (slots : List ℕ) → All (λ (k : HeldKey). k.code < 2 ^ 16) (held_keys slots)
unfolding held_keys held_entry_unpack
held_keys-codes [] = tt
held_keys-codes (slot ∷ slots) =
    if_either (All (λ (k : HeldKey). k.code < 2 ^ 16)) (not (slot == 0))
      (omega arith, held_keys-codes slots) (held_keys-codes slots)

get_or-take : (n i : ℕ) (bytes : List ℕ) → i < n → get_or (take n bytes) i 0 ≡ get_or bytes i 0
get_or-take zero i bytes h = absurd (omega arith)
get_or-take (suc n) i [] h = refl
get_or-take (suc n) zero (byte ∷ bytes) h = refl
get_or-take (suc n) (suc i) (byte ∷ bytes) h = get_or-take n i bytes (omega arith)

bitmap_get-take : (bytes : List ℕ) → SameKeys (take 8 bytes) bytes
unfolding bitmap_get mask_get
bitmap_get-take bytes j = ground (arith, get_or-take 8 (j / 8) bytes)

-- Rotations and motion totals within their types.
pub record IsKept (motion_totals : List MotionTotal) (p : Peripheral) : Type 0 where
  pub rotations : All (λ t. IsInt 64 t) p.sensor_total_udeg
  pub motions : All (λ (m : MotionTotal). IsInt 16 m.short_total) motion_totals

known :
    (unread reporting : Bool) (charge level : ℕ)
    → (if unread || peripheral_battery_level reporting charge == battery_unknown
        then level
        else peripheral_battery_level reporting charge)
      ≡ (if unread || not reporting || charge == 0 || charge == battery_unknown
          then level
          else charge)
unfolding peripheral_battery_level
known unread reporting charge level = ground arith

module _ (order : ByteOrder) (c : ZmkEvents) (source : ℕ) (packet : List ℕ) (q : PipeState) where
  process_keepalive-tracked :
      (process_keepalive order c source packet q).1.tracked
      ≡ (replay_tracked source (bitmap_of packet) q.tracked).1
  unfolding process_keepalive reconcile_battery
  process_keepalive-tracked = ground arith

  process_keepalive-battery_level : (process_keepalive order c source packet q).1.battery_level ≡ (
      if not (c.battery_reporting && not c.battery_fetching)
        || battery_level_of packet == battery_unknown
      then q.battery_level
      else battery_level_of packet)
  unfolding process_keepalive reconcile_battery
  process_keepalive-battery_level = ground arith

module _ (z : Layout) (input_ev_key wire_size : ℕ) where
  -- The peripheral after a run of events, whatever becomes of their packets.
  unfoldable pub after_events : List Event → Peripheral → Peripheral
  unfolding peripheral_encode_event
  after_events [] p = p
  after_events (event ∷ events) p =
      after_events events (peripheral_encode_event z input_ev_key wire_size event p).1

  -- Whether the last event of a position was a press; `before` with no event of it.
  abbrev pub last_reported : ℕ → List Event → Bool → Bool
  last_reported position [] before = before
  last_reported position (input_event e ∷ events) before = last_reported position events before
  last_reported position (other_event type bytes ∷ events) before =
      last_reported position events (
        if type == z.key_type && (z.key_of bytes).0 == position then (z.key_of bytes).1 else before)

  -- A position's bit after one event.
  note_split_event-pressed :
      (position : ℕ) (type : ℕ) (bytes : List ℕ) (p : Peripheral)
      → position < position_count
      → 8 ≤ length p.pressed_positions
      → bitmap_get
          (note_split_event z input_ev_key (other_event type bytes) p).1.pressed_positions
          position
        ≡ (if type == z.key_type && (z.key_of bytes).0 == position
            then (z.key_of bytes).1
            else bitmap_get p.pressed_positions position)
  unfolding note_split_event note_key_event
  note_split_event-pressed position type bytes p h wide =
      let value =
        if type == z.key_type && (z.key_of bytes).0 == position
        then (z.key_of bytes).1
        else bitmap_get p.pressed_positions position in
      let written =
        bitmap_get-bitmap_set p.pressed_positions (z.key_of bytes).0 position (z.key_of bytes).1
          wide in
      if_split (λ (r : Event × Peripheral). bitmap_get r.1.pressed_positions position ≡ value)
        (type == z.key_type) (λ e. ground (arith, written))
        (λ e.
          if_either (λ (r : Event × Peripheral). bitmap_get r.1.pressed_positions position ≡ value)
            (type == z.sensor_type) (ground arith) (ground arith))

  after_events-IsSized : (events : List Event) (p : Peripheral) → IsSized p (after_events events p)
  unfolding after_events
  after_events-IsSized [] p = record { positions = refl; held = refl; sensors = refl }
  after_events-IsSized (event ∷ events) p =
      let once = note_split_event-IsSized z input_ev_key event p in
      let rest = after_events-IsSized events (note_split_event z input_ev_key event p).1 in
      record {
        positions = rest.positions ∙ once.positions;
        held = rest.held ∙ once.held;
        sensors = rest.sensors ∙ once.sensors;
      }

  after_events-pressed :
      (position : ℕ) (events : List Event) (p : Peripheral)
      → position < position_count
      → length p.pressed_positions ≡ 8
      → bitmap_get (after_events events p).pressed_positions position
        ≡ last_reported position events (bitmap_get p.pressed_positions position)
  unfolding after_events
  after_events-pressed position [] p h wide = refl
  after_events-pressed position (input_event e ∷ events) p h wide =
      after_events-pressed position events (note_split_event z input_ev_key (input_event e) p).1 h
        ((note_split_event-IsSized z input_ev_key (input_event e) p).positions ∙ wide)
  after_events-pressed position (other_event type bytes ∷ events) p h wide =
      after_events-pressed position events
        (note_split_event z input_ev_key (other_event type bytes) p).1 h
        ((note_split_event-IsSized z input_ev_key (other_event type bytes) p).positions ∙ wide)
      ∙ ap (last_reported position events)
          (note_split_event-pressed position type bytes p h (omega (arith, wide)))

  snapshot-IsFilled :
      (state link_cost battery_level : ℕ) (motion_totals : List MotionTotal) (p : Peripheral)
      → length p.pressed_positions ≡ 8
      → keepalive_length
          (length (held_keys p.held_input_keys))
          (length motion_totals)
          (length p.sensor_total_udeg)
        < 256
      → IsKept motion_totals p
      → IsFilled (keepalive_snapshot state link_cost battery_level motion_totals p)
  unfolding keepalive_snapshot held_keys
  snapshot-IsFilled state link_cost battery_level motion_totals p wide size k = record {
    bitmap = wide;
    held = refl;
    motion = refl;
    sensors = refl;
    size = size;
    codes = held_keys-codes p.held_input_keys;
    totals = k.motions;
    rotations = k.rotations;
  }

  module _ (order : ByteOrder) (c : ZmkEvents) (reporting : Bool)
      (charge out_size state link_cost source : ℕ) (motion_totals : List MotionTotal) where
    -- The peripheral's keepalive is encoded, and read by the central.
    pub record IsSynced (events : List Event) (p : Peripheral) (q : PipeState) (packet : List ℕ)
        : Type 0 where
      pub filled :
          peripheral_keepalive_fill order reporting charge out_size state link_cost motion_totals
            (after_events events p)
          ≡ (packet, length packet)
      pub positions :
          (position : ℕ)
          → position < position_count
          → bitmap_get (process_keepalive order c source packet q).1.tracked position
            ≡ last_reported position events (bitmap_get p.pressed_positions position)
      pub battery : (process_keepalive order c source packet q).1.battery_level ≡ (
          if not (c.battery_reporting && not c.battery_fetching)
            || not reporting
            || charge == 0
            || charge == battery_unknown
          then q.battery_level
          else charge)

    -- Whatever a peripheral's events were and whichever of their packets were lost, the keepalive that it
    -- fills then is written whole and its length returned, and when the central has processed it, it
    -- tracks a position just if the position's last event was a press, and knows the battery's charge if
    -- the peripheral does and the central takes it from keepalives. The room is below 256 bytes and takes
    -- a keepalive of full tables, the rotations and motion totals are within their types, the
    -- peripheral's map is one of 8 bytes, and the central's of 8 at least.
    pub peripheral_keepalive_fill-last_reported :
        (events : List Event) (p : Peripheral) (q : PipeState)
        → length p.pressed_positions ≡ 8
        → keepalive_length
            (length p.held_input_keys)
            (length motion_totals)
            (length p.sensor_total_udeg)
          ≤ out_size
        → out_size < 256
        → IsKept motion_totals (after_events events p)
        → 8 ≤ length q.tracked
        → (packet : List ℕ) × IsSynced events p q packet
    unfolding peripheral_keepalive_fill keepalive_snapshot held_keys
    peripheral_keepalive_fill-last_reported events p q wide room small kept tracked =
        let now = after_events events p in
        let s =
          keepalive_snapshot state link_cost (peripheral_battery_level reporting charge)
            motion_totals now in
        let sized = after_events-IsSized events p in
        let fits : keepalive_length (length (held_keys now.held_input_keys)) (length motion_totals)
              (length now.sensor_total_udeg)
            ≤ out_size =
          omega (arith, room, length-held_keys now.held_input_keys, sized.held, sized.sensors) in
        let filled =
          snapshot-IsFilled state link_cost (peripheral_battery_level reporting charge)
            motion_totals now (sized.positions ∙ wide) (omega (arith, fits, small)) kept in
        let (packet, encoded, reads) = keepalive_encode-Reads order s out_size filled fits in
        let whole : length packet % 256 ≡ length packet = omega (arith, reads.size, filled.size) in
        let replayed = replay_tracked-IsAlternating source (bitmap_of packet) q.tracked tracked in
        (
          packet,
          record {
            filled = ap written encoded ∙ ap (λ n. (packet, n)) whole;
            positions = λ position h.
                ap (λ b. bitmap_get b position) (process_keepalive-tracked order c source packet q)
                ∙ replayed.1 position
                ∙ sym (bitmap_get-take (bitmap_of packet) position)
                ∙ ap (λ b. bitmap_get b position) reads.bitmap
                ∙ after_events-pressed position events p h wide;
            battery =
                process_keepalive-battery_level order c source packet q
                ∙ ap
                    (λ level.
                      if not (c.battery_reporting && not c.battery_fetching)
                        || level == battery_unknown
                      then q.battery_level
                      else level)
                    reads.battery_level
                ∙ known (not (c.battery_reporting && not c.battery_fetching)) reporting charge
                    q.battery_level;
          },
        )
