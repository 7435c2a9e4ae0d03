-- ===== src/Tests/Totals.antt =====
-- src/esb_motion_total.h, src/esb_sensor_sync.c.
use zmk_feature_split_esb.Prelude.{true, arith}
use zmk_feature_split_esb.Prelude.Int.{ℤ, pos, negsuc, IsInt, of_word, to_word}
use zmk_feature_split_esb.Totals.Motion.{MotionTrack, wrapped_gap}

-- A track just short of the wrap of 32 bits.
abbrev track : MotionTrack
track = record { last_total = pos 2147483600; valid = true }

abbrev total : ℤ
total = negsuc 2147483547

gap-IsInt : IsInt 16 (wrapped_gap total track.last_total)
unfolding wrapped_gap of_word to_word
gap-IsInt = (omega arith, omega arith)
