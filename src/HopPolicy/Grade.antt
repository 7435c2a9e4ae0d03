-- ===== src/HopPolicy/Grade.antt =====
-- src/hop_policy.c: window grades, streaks, averages and budgets. An `int8_t` level in dBm is an
-- integer; a function that writes through a pointer returns the new value beside its result.
pub mod Laws
pub mod Runs
use zmk_feature_split_esb.Prelude.{
  ℕ, ◌+◌, ◌-◌, ◌*◌, ◌/◌, ◌%◌, ◌^◌, min, Bool, true, false, ◌&&◌, not, ltb, leb, ◌==◌, if◌then◌else◌,
}
use zmk_feature_split_esb.Prelude.Int.{
  ℤ, pos, pos_part, negsuc, ◌+ℤ◌, ◌-ℤ◌, leb_ℤ, ltb_ℤ, quot, to_word, of_word,
}

-- HOP_POLICY_RSSI_GRADE_STEP_DB, HOP_POLICY_MAX_LOSS_PENALTY, HOP_POLICY_TX_ATTEMPTS_GRADE_STEP
abbrev pub rssi_grade_step_db : ℕ
rssi_grade_step_db = 6

abbrev pub max_loss_penalty : ℕ
max_loss_penalty = 4

abbrev pub tx_attempts_grade_step : ℕ
tx_attempts_grade_step = 4

abbrev pub good_tx_attempts : ℕ
good_tx_attempts = 2

abbrev pub attempts_ewma_shift : ℕ
attempts_ewma_shift = 2

abbrev pub retry_ewma_low_x10 : ℕ
retry_ewma_low_x10 = 15

abbrev pub retry_ewma_high_x10 : ℕ
retry_ewma_high_x10 = 45

abbrev pub retest_level_max : ℕ
retest_level_max = 6

unfoldable pub saturating_add : ℕ → ℕ → ℕ
saturating_add value add = if ltb (255 - add) value then 255 else (value + add) % 256

-- The result, and the new `*bad_windows`.
unfoldable pub should_hop : ℕ → ℕ → ℕ → Bool × ℕ
should_hop bad_windows penalty threshold =
    if penalty == 0
    then (false, 0)
    else let streak = saturating_add bad_windows penalty in
      if leb threshold streak then (true, 0) else (false, streak)

unfoldable pub attempts_penalty : ℕ → ℕ → ℕ
attempts_penalty attempts good_attempts =
    if leb attempts good_attempts
    then 0
    else let penalty : ℕ = 1 + (attempts - good_attempts) / tx_attempts_grade_step in
      (if ltb max_loss_penalty penalty then max_loss_penalty else penalty) % 256

-- The mean of `attempts_sum` over `packets`, rounded up, in a byte.
unfoldable pub window_attempts : ℕ → ℕ → ℕ
window_attempts attempts_sum packets =
    if packets == 0
    then 0
    else let mean = attempts_sum / packets in
      let rounded = if attempts_sum % packets == 0 then mean else (mean + 1) % 2 ^ 32 in
      min rounded 255

-- `uint32_t` subtraction wraps.
abbrev pub sub32 : ℕ → ℕ → ℕ
sub32 a b = (a + 2 ^ 32 - b) % 2 ^ 32

unfoldable pub acked_window_attempts : ℕ → ℕ → ℕ → ℕ
acked_window_attempts attempts_sum packets noack_packets =
    if leb packets noack_packets
    then 0
    else window_attempts (sub32 attempts_sum noack_packets) (sub32 packets noack_packets)

-- One step of the average: a quarter of the way, and one unit at least.
unfoldable pub ewma_step : ℤ → ℤ
ewma_step difference =
    let delta = quot difference (2 ^ attempts_ewma_shift) in
    if leb_ℤ (pos 0) delta && leb_ℤ delta (pos 0)
    then if ltb_ℤ (pos 0) difference
      then pos 1
      else if ltb_ℤ difference (pos 0)
      then negsuc 0
      else delta
    else delta

unfoldable pub ewma_update : ℕ → ℕ → ℕ
ewma_update ewma_x10 sample =
    to_word 16 (pos ewma_x10 +ℤ ewma_step (pos (sample * 10) -ℤ pos ewma_x10))

unfoldable pub adaptive_retransmits : ℕ → ℕ → ℕ → ℕ
adaptive_retransmits ewma_x10 count_min count_max =
    if leb ewma_x10 retry_ewma_low_x10
    then count_min
    else if leb retry_ewma_high_x10 ewma_x10
    then count_max
    else let span : ℕ = retry_ewma_high_x10 - retry_ewma_low_x10 in
      let into : ℕ = ewma_x10 - retry_ewma_low_x10 in
      (count_min + into * sub32 count_max count_min % 2 ^ 32 / span) % 256

unfoldable pub hfclk_release_allowed : Bool → Bool → Bool
hfclk_release_allowed gating radio_idle = if not gating then false else radio_idle

-- `uint32_t` products wrap. USEC_PER_MSEC is 1000.
unfoldable pub retry_cycle_ms : ℕ → ℕ → ℕ → ℕ → ℕ
retry_cycle_ms count delay_us margin floor_ms =
    let cycle_us : ℕ = margin * count % 2 ^ 32 * delay_us % 2 ^ 32 in
    if ltb (cycle_us / 1000) floor_ms then floor_ms else cycle_us / 1000

-- `(int8_t)(-rssi_magnitude)`: the magnitude -128 stays -128.
unfoldable pub rssi_to_dbm : ℤ → ℤ
rssi_to_dbm rssi_magnitude = of_word 8 (to_word 8 (pos 0 -ℤ rssi_magnitude))

unfoldable pub loss_penalty : ℤ → ℤ → ℕ
loss_penalty rssi_dbm floor_dbm =
    if leb_ℤ floor_dbm rssi_dbm
    then 0
    else let penalty : ℕ = 1 + pos_part (floor_dbm -ℤ rssi_dbm) / rssi_grade_step_db in
      (if ltb max_loss_penalty penalty then max_loss_penalty else penalty) % 256

-- The new `*score`.
unfoldable pub score_update : ℕ → ℕ → ℕ → ℕ
score_update score penalty decay =
    if penalty == 0 then score - min score decay else saturating_add score penalty

unfoldable pub retest_threshold : ℕ → ℕ → ℕ
retest_threshold base_windows level =
    let capped = if ltb retest_level_max level then retest_level_max else level in
    let threshold : ℕ = base_windows * 2 ^ capped % 2 ^ 32 in
    if ltb 65535 threshold then 65535 else threshold

-- The result, and the new `*counter`.
unfoldable pub window_period_fires : ℕ → ℕ → Bool × ℕ
window_period_fires counter period =
    let next : ℕ = (counter + 1) % 256 in if leb period next then (true, 0) else (false, next)

pub record Beaconing : Type 0 where
  pub beaconed_epoch : ℕ
  pub repeats_left : ℕ

unfoldable pub should_beacon : ℕ → Beaconing → ℕ → Bool × Beaconing
should_beacon epoch b repeat_windows =
    let armed =
      if epoch == b.beaconed_epoch
      then b
      else record { beaconed_epoch = epoch; repeats_left = repeat_windows } in
    if ltb 0 armed.repeats_left
    then (true, record armed { repeats_left = armed.repeats_left - 1 })
    else (false, armed)
