-- ===== src/Tests/Keepalive.antt =====
-- src/esb_keepalive.c, src/spsc_latch.c.
use zmk_feature_split_esb.Prelude.{ℕ, ◌≡◌, refl, some, none, List, [], ◌∷◌, ◌++◌, replicate, arith}
use zmk_feature_split_esb.Prelude.Int.{pos, negsuc}
use zmk_feature_split_esb.Keepalive.Codec.{Snapshot, keepalive_encode}
use zmk_feature_split_esb.Keepalive.Codec.RoundTrip.{IsFilled, Reads, keepalive_encode-Reads}
use zmk_feature_split_esb.SpscLatch.{SpscLatch}
use zmk_feature_split_esb.Tests.LittleEndian.{little_endian}

-- A snapshot with a key held, a motion total below 0 and a rotation.
abbrev pub snapshot : Snapshot
snapshot = record {
  state = 1;
  link_cost_x10 = 12;
  battery_level = 87;
  position_bitmap = 4 ∷ replicate 7 0;
  held_keys = record { reg = 1; code = 0x110 } ∷ [];
  held_count = 1;
  motion_totals = record { reg = 0; code = 8; short_total = negsuc 299 } ∷ [];
  motion_count = 1;
  sensor_totals_udeg = pos 15000000 ∷ [];
  sensor_count = 1;
}

pub snapshot-IsFilled : IsFilled snapshot
snapshot-IsFilled = record {
  bitmap = refl;
  held = refl;
  motion = refl;
  sensors = refl;
  size = omega arith;
  codes = (omega arith, tt);
  totals = ((omega arith, omega arith), tt);
  rotations = ((omega arith, omega arith), tt);
}

keepalive_encode-Reads_example :
    (packet : List ℕ) × (keepalive_encode little_endian 40 snapshot ≡ some packet)
    × Reads little_endian snapshot packet
keepalive_encode-Reads_example =
    keepalive_encode-Reads little_endian snapshot 40 snapshot-IsFilled (omega arith)

abbrev quiet_packet : List ℕ
quiet_packet = 0xff ∷ 0 ∷ (replicate 8 0 ++ (90 ∷ 10 ∷ 0 ∷ 0 ∷ []))

abbrev latch : SpscLatch
latch = record { published = none; next_index = 5; slot_count = 2 }
