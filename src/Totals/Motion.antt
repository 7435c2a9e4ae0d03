-- ===== src/Totals/Motion.antt =====
-- src/esb_motion_total.h: totals of lossy motion, which wrap as `int32_t` on the wire.
use zmk_feature_split_esb.Prelude.{
  ℕ, ◌+◌, ◌-◌, ◌%◌, ◌^◌, ◌<◌, ◌≡◌, refl, Bool, true, ◌&&◌, ◌||◌, leb, ltb, ◌==◌, if◌then◌else◌,
  Option, none, some, arith, Bool-cases, inl, inr,
}
use zmk_feature_split_esb.Prelude.Int.{
  ℤ, pos, negsuc, pos_part, neg_part, ltb_ℤ, IsInt, to_word, of_word, to_word-lt,
}

-- ESB_MOTION_RESYNC_COUNTS, and its negative.
abbrev pub resync_counts : ℕ
resync_counts = 8192

pub record MotionTrack : Type 0 where
  pub last_total : ℤ
  pub valid : Bool

unfoldable pub motion_total_add : ℤ → ℤ → ℤ
motion_total_add total delta = of_word 32 ((to_word 32 total + to_word 32 delta) % 2 ^ 32)

-- The delta to forward, if any.
unfoldable pub motion_track_gap : MotionTrack → ℤ → Option ℤ × MotionTrack
unfolding motion_total_add
motion_track_gap track gap = (
  if (pos_part gap == 0 && neg_part gap == 0)
        || ltb_ℤ (pos resync_counts) gap
        || ltb resync_counts (neg_part gap)
      then none
      else some gap,
  record track { last_total = motion_total_add track.last_total gap },
)

-- The difference of two totals as the wire's words wrap.
unfoldable pub wrapped_gap : ℤ → ℤ → ℤ
wrapped_gap total last = of_word 32 ((to_word 32 total + (2 ^ 32 - to_word 32 last)) % 2 ^ 32)

unfoldable pub motion_track_delta : MotionTrack → ℤ → Option ℤ × MotionTrack
unfolding motion_track_gap wrapped_gap
motion_track_delta track total =
    if track.valid
    then motion_track_gap track (wrapped_gap total track.last_total)
    else (none, record { last_total = total; valid = true })

-- The same on the low 16 bits.
unfoldable pub short_gap : ℤ → ℤ → ℤ
short_gap short_total last =
    of_word 16 ((to_word 16 short_total + (2 ^ 16 - to_word 32 last % 2 ^ 16)) % 2 ^ 16)

unfoldable pub motion_track_short_delta : MotionTrack → ℤ → Option ℤ × MotionTrack
unfolding motion_track_gap short_gap
motion_track_short_delta track short_total =
    if track.valid
    then motion_track_gap track (short_gap short_total track.last_total)
    else (none, track)

unfoldable pub motion_quiet_enough : ℕ → ℕ → Bool
motion_quiet_enough quiet_ms hop_window_ms = leb hop_window_ms quiet_ms

-- The low 16 bits of a total, as the keepalive carries it.
unfoldable pub short_of : ℤ → ℤ
short_of total = of_word 16 (to_word 32 total % 2 ^ 16)

word_short : (n : ℕ) → n < 2 ^ 16 → to_word 16 (of_word 16 n) ≡ n
unfolding to_word of_word
word_short n h = ground arith

gaps_agree :
    (a b : ℕ)
    → a < 2 ^ 32
    → b < 2 ^ 32
    → IsInt 16 (of_word 32 ((a + (2 ^ 32 - b)) % 2 ^ 32))
    → of_word 16 ((a % 2 ^ 16 + (2 ^ 16 - b % 2 ^ 16)) % 2 ^ 16)
      ≡ of_word 32 ((a + (2 ^ 32 - b)) % 2 ^ 32)
unfolding of_word
gaps_agree a b h k i = ground arith

-- A keepalive's short total repairs lost motion as the whole total would: for a tracked axis whose
-- total has moved by less than 2 ^ 15 since the last one seen, the same delta is forwarded and the
-- same baseline is kept.
pub motion_track_short_delta_agrees :
    (track : MotionTrack) (total : ℤ)
    → track.valid ≡ true
    → IsInt 16 (wrapped_gap total track.last_total)
    → motion_track_short_delta track (short_of total) ≡ motion_track_delta track total
unfolding motion_track_short_delta motion_track_delta short_gap wrapped_gap short_of
motion_track_short_delta_agrees track total valid small =
    let w = to_word 32 total in
    let l = to_word 32 track.last_total in
    let short : to_word 16 (of_word 16 (w % 2 ^ 16)) ≡ w % 2 ^ 16 =
      word_short (w % 2 ^ 16) (omega arith) in
    let same = gaps_agree w l (to_word-lt 32 total) (to_word-lt 32 track.last_total) small in
    rw (valid, short, same) refl

pub word_back : (z : ℤ) → IsInt 32 z → of_word 32 (to_word 32 z) ≡ z
unfolding of_word to_word
word_back (pos n) h = ground arith
word_back (negsuc n) h = ground arith

word_gap :
    (a b : ℕ)
    → a < 2 ^ 32
    → b < 2 ^ 32
    → (b + to_word 32 (of_word 32 ((a + (2 ^ 32 - b)) % 2 ^ 32))) % 2 ^ 32 ≡ a
unfolding of_word to_word
word_gap a b h k = ground arith

-- Whatever the gap, forwarded or not, the baseline becomes the total that came in, by the wrapping
-- sum: the next gap counts from it.
pub motion_track_delta-last_total :
    (track : MotionTrack) (total : ℤ)
    → IsInt 32 total
    → (motion_track_delta track total).1 ≡ record { last_total = total; valid = true }
unfolding motion_track_delta motion_track_gap motion_total_add wrapped_gap
motion_track_delta-last_total track total fits = elim (Bool-cases track.valid) [
  | inl on ↦
      let w =
        word_gap (to_word 32 total) (to_word 32 track.last_total) (to_word-lt 32 total)
          (to_word-lt 32 track.last_total) in
      rw (on, w, word_back total fits) refl
  | inr off ↦ rw (off) refl
]
