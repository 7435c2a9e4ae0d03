-- ===== src/Totals/Sensor.antt =====
-- src/esb_sensor_sync.c: cumulative rotation in millionths of a degree. The difference of two totals
-- is taken in ℤ: the source's is `int64_t`, and totals that far apart do not arise.
use zmk_feature_split_esb.Prelude.{
  ℕ, suc, ◌-◌, ◌*◌, ◌^◌, ◌<◌, ◌≡◌, Bool, true, not, ◌||◌, ◌&&◌, ltb, ◌==◌, if◌then◌else◌, Option,
  none, some, arith,
}
use zmk_feature_split_esb.Prelude.Int.{
  ℤ, pos, negsuc, pos_part, neg_part, ◌+ℤ◌, ◌-ℤ◌, quot, rem, to_word, of_word,
}

-- ESB_SENSOR_MICRODEG_PER_DEG, ESB_SENSOR_RESYNC_UDEG
abbrev pub microdeg_per_deg : ℕ
microdeg_per_deg = 1000000

abbrev pub resync_udeg : ℕ
resync_udeg = 180 * microdeg_per_deg

pub record SensorTrack : Type 0 where
  pub last_udeg : ℤ
  pub valid : Bool

-- A product with the positive constant.
abbrev scale : ℤ → ℤ
scale (pos n) = pos (n * microdeg_per_deg)
scale (negsuc n) = negsuc (suc n * microdeg_per_deg - 1)

unfoldable pub sensor_udeg : ℤ → ℤ → ℤ
sensor_udeg val1 val2 = scale val1 +ℤ val2

unfoldable pub sensor_udeg_val1 : ℤ → ℤ
sensor_udeg_val1 udeg = of_word 32 (to_word 32 (quot udeg microdeg_per_deg))

unfoldable pub sensor_udeg_val2 : ℤ → ℤ
sensor_udeg_val2 udeg = of_word 32 (to_word 32 (rem udeg microdeg_per_deg))

unfoldable pub sensor_track_delta : SensorTrack → ℤ → Option ℤ × SensorTrack
sensor_track_delta track total_udeg =
    let delta = total_udeg -ℤ track.last_udeg in
    (
      if not track.valid
            || (pos_part delta == 0 && neg_part delta == 0)
            || ltb resync_udeg (pos_part delta)
            || ltb resync_udeg (neg_part delta)
          then none
          else some delta,
      record { last_udeg = total_udeg; valid = true },
    )

-- A total whose whole degrees fit 31 bits is what its two parts add up to.
pub sensor_udeg_parts :
    (udeg : ℤ)
    → pos_part udeg < 2 ^ 31 * microdeg_per_deg
    → neg_part udeg < 2 ^ 31 * microdeg_per_deg
    → sensor_udeg (sensor_udeg_val1 udeg) (sensor_udeg_val2 udeg) ≡ udeg
unfolding sensor_udeg sensor_udeg_val1 sensor_udeg_val2 quot rem of_word to_word ◌+ℤ◌
sensor_udeg_parts (pos n) h k = ground arith
sensor_udeg_parts (negsuc n) h k = ground arith
