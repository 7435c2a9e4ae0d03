-- ===== src/Keepalive/Codec/RoundTrip.antt =====
-- Encoding a snapshot and reading it back.
use zmk_feature_split_esb.Prelude.{
  ℕ, suc, ◌+◌, ◌*◌, ◌^◌, ◌≤◌, ◌<◌, ◌≡◌, refl, ◌∙◌, true, false, some, List, [], ◌∷◌, ◌++◌, length,
  get_or, take, drop, length-append, take-append, take_all, All, All-get_or, arith, ltb,
}
use mathlib.Core.List.{append-nil}
use mathlib.Core.Path.{subst}
use zmk_feature_split_esb.Prelude.Int.{
  ℤ, pos, IsInt, to_word, of_word-to_word_16, of_word-to_word_64, to_word-lt,
}
use zmk_feature_split_esb.ByteOrder.{ByteOrder}
use zmk_feature_split_esb.Keepalive.Codec.{
  keepalive_tag, keepalive_length, bitmap_bytes, HeldKey, MotionTotal, Snapshot, entries,
  held_entry, motion_entry, sensor_entry, keepalive_encode, held_count_of, motion_count_of,
  sensor_offset_of, keepalive_matches, sensor_count_of, state_of, bitmap_of, battery_level_of,
  link_cost_of, held_key_at, motion_total_at, sensor_total_udeg_at,
}
use zmk_feature_split_esb.Keepalive.Codec.Layout.{drop_at, get_or_at, length-entries, drop-entries}

-- A snapshot as its callers fill it: a whole bitmap, counts that are those of the arrays, a packet
-- whose length fits a byte, and values within their types.
pub record IsFilled (s : Snapshot) : Type 0 where
  pub bitmap : length s.position_bitmap ≡ bitmap_bytes
  pub held : length s.held_keys ≡ s.held_count
  pub motion : length s.motion_totals ≡ s.motion_count
  pub sensors : length s.sensor_totals_udeg ≡ s.sensor_count
  pub size : keepalive_length s.held_count s.motion_count s.sensor_count < 256
  pub codes : All (λ (k : HeldKey). k.code < 2 ^ 16) s.held_keys
  pub totals : All (λ (m : MotionTotal). IsInt 16 m.short_total) s.motion_totals
  pub rotations : All (λ t. IsInt 64 t) s.sensor_totals_udeg

abbrev pub no_key : HeldKey
no_key = record { reg = 0; code = 0 }

abbrev pub no_motion : MotionTotal
no_motion = record { reg = 0; code = 0; short_total = pos 0 }

-- A packet from which every reader of the source reads the snapshot back.
pub record Reads (order : ByteOrder) (s : Snapshot) (packet : List ℕ) : Type 0 where
  pub size : length packet ≡ keepalive_length s.held_count s.motion_count s.sensor_count
  pub matches : keepalive_matches packet (length packet) ≡ true
  pub state : state_of packet ≡ s.state
  pub bitmap : take bitmap_bytes (bitmap_of packet) ≡ s.position_bitmap
  pub battery_level : battery_level_of packet ≡ s.battery_level
  pub link_cost : link_cost_of packet ≡ s.link_cost_x10
  pub held_count : held_count_of packet ≡ s.held_count
  pub motion_count : motion_count_of packet ≡ s.motion_count
  pub sensor_count : sensor_count_of packet (length packet) ≡ s.sensor_count
  pub held_keys :
      (i : ℕ) → i < s.held_count → held_key_at order packet i ≡ get_or s.held_keys i no_key
  pub motion_totals :
      (i : ℕ)
      → i < s.motion_count
      → motion_total_at order packet i ≡ get_or s.motion_totals i no_motion
  pub sensor_totals :
      (i : ℕ)
      → i < s.sensor_count
      → sensor_total_udeg_at order packet i ≡ get_or s.sensor_totals_udeg i (pos 0)

module _ (order : ByteOrder) (s : Snapshot) (filled : IsFilled s) where
  open order use {put_le16, get_le16, put_le64, get_le64}

  abbrev front : List ℕ
  front = keepalive_tag ∷ s.state ∷ s.position_bitmap

  abbrev held_part : List ℕ
  held_part = entries (held_entry order) s.held_keys

  abbrev motion_part : List ℕ
  motion_part = entries (motion_entry order) s.motion_totals

  abbrev sensor_part : List ℕ
  sensor_part = entries (sensor_entry order) s.sensor_totals_udeg

  abbrev body : List ℕ
  body = held_part ++ (s.motion_count ∷ (motion_part ++ sensor_part))

  abbrev whole : List ℕ
  whole = front ++ (s.battery_level ∷ s.link_cost_x10 ∷ s.held_count ∷ body)

  encode-some :
      (out_size : ℕ) (packet : List ℕ)
      → keepalive_encode order out_size s ≡ some packet
      → packet ≡ whole
  unfolding keepalive_encode
  encode-some out_size packet e = ground (
    arith,
    take_all bitmap_bytes s.position_bitmap filled.bitmap,
    take_all s.held_count s.held_keys filled.held,
    take_all s.motion_count s.motion_totals filled.motion,
    take_all s.sensor_count s.sensor_totals_udeg filled.sensors,
  )

  held_width : (k : HeldKey) → length (held_entry order k) ≡ 3
  unfolding held_entry
  held_width k = omega (arith, order.length-put_le16 k.code)

  motion_width : (m : MotionTotal) → length (motion_entry order m) ≡ 4
  unfolding motion_entry
  motion_width m = omega (arith, order.length-put_le16 (to_word 16 m.short_total))

  sensor_width : (t : ℤ) → length (sensor_entry order t) ≡ 8
  unfolding sensor_entry
  sensor_width t = order.length-put_le64 (to_word 64 t)

  length-front : length front ≡ 10
  length-front = omega (arith, filled.bitmap)

  length-held : length held_part ≡ s.held_count * 3
  length-held =
      omega (arith, length-entries (held_entry order) 3 held_width s.held_keys, filled.held)

  length-motion : length motion_part ≡ s.motion_count * 4
  length-motion =
      omega
        (arith, length-entries (motion_entry order) 4 motion_width s.motion_totals, filled.motion)

  length-sensor : length sensor_part ≡ s.sensor_count * 8
  length-sensor = omega (
    arith,
    length-entries (sensor_entry order) 8 sensor_width s.sensor_totals_udeg,
    filled.sensors,
  )

  -- The fixed fields, the counts and the three parts, at the offsets that the readers go by.
  at_fixed :
      (i : ℕ)
      → get_or whole (10 + i) 0
        ≡ get_or (s.battery_level ∷ s.link_cost_x10 ∷ s.held_count ∷ body) i 0
  at_fixed i = get_or_at 10 i front _ length-front

  drop-body : (k : ℕ) → drop (13 + k) whole ≡ drop k body
  drop-body k =
      let e : 13 + k ≡ 10 + suc (suc (suc k)) = omega arith in
      rw e (drop_at 10 (suc (suc (suc k))) front _ length-front)

  get_or-body : (k : ℕ) → get_or whole (13 + k) 0 ≡ get_or body k 0
  get_or-body k =
      let e : 13 + k ≡ 10 + suc (suc (suc k)) = omega arith in
      rw e (get_or_at 10 (suc (suc (suc k))) front _ length-front)

  read_held_count : held_count_of whole ≡ s.held_count
  unfolding held_count_of
  read_held_count = at_fixed 2

  read_motion_count : motion_count_of whole ≡ s.motion_count
  unfolding motion_count_of
  read_motion_count =
      let e : 13 + s.held_count * 3 ≡ 13 + (s.held_count * 3 + 0) = omega arith in
      rw (read_held_count, e)
        (get_or-body (s.held_count * 3 + 0)
          ∙ get_or_at (s.held_count * 3) 0 held_part _ length-held)

  length-whole : length whole ≡ keepalive_length s.held_count s.motion_count s.sensor_count
  length-whole = omega (
    arith,
    length-append front (s.battery_level ∷ s.link_cost_x10 ∷ s.held_count ∷ body),
    length-front,
    length-append held_part (s.motion_count ∷ (motion_part ++ sensor_part)),
    length-append motion_part sensor_part,
    length-held,
    length-motion,
    length-sensor,
  )

  read_matches : keepalive_matches whole (length whole) ≡ true
  unfolding keepalive_matches sensor_offset_of
  read_matches = ground (arith, length-whole, read_held_count, read_motion_count, filled.size)

  read_sensor_count : sensor_count_of whole (length whole) ≡ s.sensor_count
  unfolding sensor_count_of sensor_offset_of
  read_sensor_count = ground (arith, length-whole, read_held_count, read_motion_count, filled.size)

  read_held_key :
      (i : ℕ) → i < s.held_count → held_key_at order whole i ≡ get_or s.held_keys i no_key
  unfolding held_key_at held_entry
  read_held_key i h =
      let (rest, found) =
        drop-entries (held_entry order) 3 held_width s.held_keys i no_key
          (s.motion_count ∷ (motion_part ++ sensor_part)) (omega (arith, filled.held)) in
      let code =
        order.get-put_le16 (get_or s.held_keys i no_key).code rest
          (All-get_or _ s.held_keys i no_key filled.codes (omega (arith, filled.held))) in
      rw (drop-body (i * 3) ∙ found, code)

  drop_motion :
      (k : ℕ) → drop (13 + s.held_count * 3 + 1 + k) whole ≡ drop k (motion_part ++ sensor_part)
  drop_motion k =
      let e : 13 + s.held_count * 3 + 1 + k ≡ 13 + (s.held_count * 3 + suc k) = omega arith in
      rw e (
        drop-body (s.held_count * 3 + suc k)
        ∙ drop_at (s.held_count * 3) (suc k) held_part _ length-held)

  read_bitmap : take bitmap_bytes (bitmap_of whole) ≡ s.position_bitmap
  unfolding bitmap_of
  read_bitmap =
      let rest = s.battery_level ∷ s.link_cost_x10 ∷ s.held_count ∷ body in
      subst (λ n. take n (s.position_bitmap ++ rest) ≡ s.position_bitmap) filled.bitmap
        (take-append s.position_bitmap rest)

  read_motion_total :
      (i : ℕ)
      → i < s.motion_count
      → motion_total_at order whole i ≡ get_or s.motion_totals i no_motion
  unfolding motion_total_at motion_entry
  read_motion_total i h =
      let m = get_or s.motion_totals i no_motion in
      let (rest, found) =
        drop-entries (motion_entry order) 4 motion_width s.motion_totals i no_motion sensor_part
          (omega (arith, filled.motion)) in
      let total =
        order.get-put_le16 (to_word 16 m.short_total) rest (to_word-lt 16 m.short_total) in
      let back =
        of_word-to_word_16 m.short_total
          (All-get_or _ s.motion_totals i no_motion filled.totals (omega (arith, filled.motion))) in
      rw (read_held_count, drop_motion (i * 4) ∙ found, total, back)

  read_sensor_total :
      (i : ℕ)
      → i < s.sensor_count
      → sensor_total_udeg_at order whole i ≡ get_or s.sensor_totals_udeg i (pos 0)
  unfolding sensor_total_udeg_at sensor_entry sensor_offset_of
  read_sensor_total i h =
      let t = get_or s.sensor_totals_udeg i (pos 0) in
      let (rest, found) =
        drop-entries (sensor_entry order) 8 sensor_width s.sensor_totals_udeg i (pos 0) []
          (omega (arith, filled.sensors)) in
      let total = order.get-put_le64 (to_word 64 t) rest (to_word-lt 64 t) in
      let back = of_word-to_word_64 t (
        All-get_or _ s.sensor_totals_udeg i (pos 0) filled.rotations
          (omega (arith, filled.sensors))) in
      let e : 13 + s.held_count * 3 + 1 + s.motion_count * 4 + i * 8
          ≡ 13 + s.held_count * 3 + 1 + (s.motion_count * 4 + i * 8) =
        omega arith in
      let place : drop (13 + s.held_count * 3 + 1 + s.motion_count * 4 + i * 8) whole
          ≡ sensor_entry order t ++ rest =
        rw e (
          drop_motion (s.motion_count * 4 + i * 8)
          ∙ drop_at (s.motion_count * 4) (i * 8) motion_part sensor_part length-motion
          ∙ (rw (append-nil) at found)) in
      rw (read_held_count, read_motion_count, place, total, back)

encoded_Reads :
    (order : ByteOrder) (s : Snapshot) (out_size : ℕ) (packet : List ℕ)
    → IsFilled s
    → keepalive_encode order out_size s ≡ some packet
    → Reads order s packet
unfolding state_of battery_level_of link_cost_of
encoded_Reads order s out_size packet filled e =
    rw (encode-some order s filled out_size packet e) (record {
      size = length-whole order s filled;
      matches = read_matches order s filled;
      state = refl;
      bitmap = read_bitmap order s filled;
      battery_level = at_fixed order s filled 0;
      link_cost = at_fixed order s filled 1;
      held_count = read_held_count order s filled;
      motion_count = read_motion_count order s filled;
      sensor_count = read_sensor_count order s filled;
      held_keys = read_held_key order s filled;
      motion_totals = read_motion_total order s filled;
      sensor_totals = read_sensor_total order s filled;
    })

encoded :
    (order : ByteOrder) (s : Snapshot) (out_size : ℕ)
    → keepalive_length s.held_count s.motion_count s.sensor_count ≤ out_size
    → (packet : List ℕ) × (keepalive_encode order out_size s ≡ some packet)
unfolding keepalive_encode
encoded order s out_size h =
    let fits : ltb out_size (keepalive_length s.held_count s.motion_count s.sensor_count) ≡ false =
      ground arith in
    rw (fits) (_, refl)

-- A snapshot that its callers fill, whose packet fits the buffer and has a length below 256, is encoded, and every reader of the
-- packet gives back what was put in: the test passes, and the fields, the counts, the held keys,
-- the motion totals and the sensor totals read as they were.
pub keepalive_encode-Reads :
    (order : ByteOrder) (s : Snapshot) (out_size : ℕ)
    → IsFilled s
    → keepalive_length s.held_count s.motion_count s.sensor_count ≤ out_size
    → (packet : List ℕ) × (keepalive_encode order out_size s ≡ some packet) × Reads order s packet
keepalive_encode-Reads order s out_size filled h =
    let (packet, e) = encoded order s out_size h in
    (packet, e, encoded_Reads order s out_size packet filled e)

-- A packet that passes the test is as long as its own counts say: every entry that a reader may ask
-- for lies in it.
pub keepalive_matches-length :
    (packet : List ℕ) (length : ℕ)
    → length < 256
    → keepalive_matches packet length ≡ true
    → keepalive_length
        (held_count_of packet)
        (motion_count_of packet)
        (sensor_count_of packet length)
      ≡ length
unfolding keepalive_matches sensor_count_of sensor_offset_of
keepalive_matches-length packet length h m = ground arith
