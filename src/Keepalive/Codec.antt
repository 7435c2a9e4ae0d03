-- ===== src/Keepalive/Codec.antt =====
-- src/esb_keepalive.c: the keepalive's encoder and the readers of a received one. A packet is the
-- list of its bytes; the readers go by the offsets of esb_keepalive.h, and a read past the end,
-- which the source does not make on a packet that matches, gives 0.

pub mod Layout
pub mod RoundTrip
use zmk_feature_split_esb.Prelude.{
  ℕ, suc, ◌+◌, ◌-◌, ◌*◌, ◌/◌, ◌%◌, Bool, true, false, ◌&&◌, not, ltb, leb, ◌==◌, if◌then◌else◌,
  Option, none, some, List, [], ◌∷◌, ◌++◌, get_or, take, drop,
}
use zmk_feature_split_esb.Prelude.Int.{ℤ, to_word, of_word}
use zmk_feature_split_esb.ByteOrder.{ByteOrder}

-- The tag, the two states, and the offsets and sizes of esb_keepalive.h.
abbrev pub keepalive_tag : ℕ
keepalive_tag = 0xff

abbrev pub keepalive_idle : ℕ
keepalive_idle = 0

abbrev pub keepalive_active : ℕ
keepalive_active = 1

abbrev pub bitmap_offset : ℕ
bitmap_offset = 2

abbrev pub bitmap_bytes : ℕ
bitmap_bytes = 8

abbrev pub battery_offset : ℕ
battery_offset = 10

abbrev pub link_cost_offset : ℕ
link_cost_offset = 11

abbrev pub held_count_offset : ℕ
held_count_offset = 12

abbrev pub held_offset : ℕ
held_offset = 13

abbrev pub motion_count_offset : ℕ → ℕ
motion_count_offset held = held_offset + held * 3

abbrev pub motion_offset : ℕ → ℕ
motion_offset held = motion_count_offset held + 1

abbrev pub sensor_offset : ℕ → ℕ → ℕ
sensor_offset held motion = motion_offset held + motion * 4

abbrev pub keepalive_length : ℕ → ℕ → ℕ → ℕ
keepalive_length held motion sensors = sensor_offset held motion + sensors * 8

pub record HeldKey : Type 0 where
  pub reg : ℕ
  pub code : ℕ

pub record MotionTotal : Type 0 where
  pub reg : ℕ
  pub code : ℕ
  pub short_total : ℤ

-- The arrays with their counts.
pub record Snapshot : Type 0 where
  pub state : ℕ
  pub link_cost_x10 : ℕ
  pub battery_level : ℕ
  pub position_bitmap : List ℕ
  pub held_keys : List HeldKey
  pub held_count : ℕ
  pub motion_totals : List MotionTotal
  pub motion_count : ℕ
  pub sensor_totals_udeg : List ℤ
  pub sensor_count : ℕ

unfoldable pub held_count_of : List ℕ → ℕ
held_count_of packet = get_or packet held_count_offset 0

unfoldable pub motion_count_of : List ℕ → ℕ
motion_count_of packet = get_or packet (motion_count_offset (held_count_of packet)) 0

unfoldable pub sensor_offset_of : List ℕ → ℕ
sensor_offset_of packet = sensor_offset (held_count_of packet) (motion_count_of packet)

-- The length comes as a `uint8_t`, here and in `sensor_count_of`.
unfoldable pub keepalive_matches : List ℕ → ℕ → Bool
keepalive_matches packet size =
    let length = size % 256 in
    if ltb length (keepalive_length 0 0 0)
    then false
    else if not (get_or packet 0 0 == keepalive_tag)
    then false
    else if leb length (motion_count_offset (held_count_of packet))
    then false
    else if ltb length (sensor_offset_of packet)
    then false
    else (length - sensor_offset_of packet) % 8 == 0

unfoldable pub sensor_count_of : List ℕ → ℕ → ℕ
sensor_count_of packet size =
    let length = size % 256 in
    if leb length (motion_count_offset (held_count_of packet))
    then 0
    else if ltb length (sensor_offset_of packet)
    then 0
    else (length - sensor_offset_of packet) / 8 % 256

unfoldable pub state_of : List ℕ → ℕ
state_of packet = get_or packet 1 0

unfoldable pub bitmap_of : List ℕ → List ℕ
bitmap_of packet = drop bitmap_offset packet

unfoldable pub battery_level_of : List ℕ → ℕ
battery_level_of packet = get_or packet battery_offset 0

unfoldable pub link_cost_of : List ℕ → ℕ
link_cost_of packet = get_or packet link_cost_offset 0

-- Active only while searching.
unfoldable pub peripheral_state : Bool → Bool → ℕ
peripheral_state active searching = if active && searching then keepalive_active else keepalive_idle

unfoldable pub keepalive_is_active : ℕ → Bool
keepalive_is_active byte = byte == keepalive_active

-- The encodings of a list of entries, one behind the other.
abbrev pub entries {ℓ} : {A : Type ℓ} → (A → List ℕ) → List A → List ℕ
entries f [] = []
entries f (x ∷ xs) = f x ++ entries f xs

module _ (order : ByteOrder) where
  open order use {put_le16, get_le16, put_le64, get_le64}

  unfoldable pub held_entry : HeldKey → List ℕ
  held_entry k = k.reg ∷ put_le16 k.code

  unfoldable pub motion_entry : MotionTotal → List ℕ
  motion_entry m = m.reg ∷ m.code ∷ put_le16 (to_word 16 m.short_total)

  unfoldable pub sensor_entry : ℤ → List ℕ
  sensor_entry t = put_le64 (to_word 64 t)

  -- The fields in the order of their offsets, which leave no gap; `none` is the returned length 0.
  unfoldable pub keepalive_encode : ℕ → Snapshot → Option (List ℕ)
  unfolding held_entry motion_entry sensor_entry
  keepalive_encode out_size s =
      if ltb out_size (keepalive_length s.held_count s.motion_count s.sensor_count)
      then none
      else some (
          keepalive_tag
          ∷ s.state
          ∷ (take bitmap_bytes s.position_bitmap
              ++ (s.battery_level
                  ∷ s.link_cost_x10
                  ∷ s.held_count
                  ∷ (entries held_entry (take s.held_count s.held_keys)
                      ++ (s.motion_count
                          ∷ (entries motion_entry (take s.motion_count s.motion_totals)
                              ++ entries sensor_entry
                                  (take s.sensor_count s.sensor_totals_udeg)))))))

  unfoldable pub held_key_at : List ℕ → ℕ → HeldKey
  held_key_at packet index =
      let entry = drop (held_offset + index * 3) packet in
      record { reg = get_or entry 0 0; code = get_le16 (drop 1 entry) }

  unfoldable pub motion_total_at : List ℕ → ℕ → MotionTotal
  motion_total_at packet index =
      let entry = drop (motion_offset (held_count_of packet) + index * 4) packet in
      record {
        reg = get_or entry 0 0;
        code = get_or entry 1 0;
        short_total = of_word 16 (get_le16 (drop 2 entry));
      }

  unfoldable pub sensor_total_udeg_at : List ℕ → ℕ → ℤ
  sensor_total_udeg_at packet index =
      of_word 64 (get_le64 (drop (sensor_offset_of packet + index * 8) packet))
