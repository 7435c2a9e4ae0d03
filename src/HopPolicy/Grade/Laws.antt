-- ===== src/HopPolicy/Grade/Laws.antt =====
-- What one call of each grade of src/hop_policy.c gives.
use zmk_feature_split_esb.Prelude.{
  ℕ, zero, suc, dec_lt, ◌+◌, ◌-◌, ◌*◌, ◌/◌, ◌%◌, ◌^◌, ◌≤◌, ◌<◌, min, ◌≡◌, ◌↔◌, arith,
}
use zmk_feature_split_esb.Prelude.Int.{ℤ, ◌+ℤ◌, ◌-ℤ◌, ◌≤ℤ◌, quot, to_word}
use native.Mathlib.Nat.{div-add-mod, le_of_mul-le-mul_right, mul-le-mul_right}
use zmk_feature_split_esb.HopPolicy.Grade.{
  saturating_add, attempts_penalty, max_loss_penalty, window_attempts, ewma_update, ewma_step,
  adaptive_retransmits, loss_penalty, retest_threshold, sub32,
}

pub saturating_add_lem : (a b : ℕ) → a < 256 → b < 256 → saturating_add a b ≡ min 255 (a + b)
unfolding saturating_add
saturating_add_lem a b h k = ground arith

-- The penalty of a transmit count is zero exactly up to the good count, never above the cap, and
-- never falls when the attempts rise.
pub attempts_penalty_graded :
    (a b good : ℕ)
    → a ≤ b
    → ((attempts_penalty a good ≡ 0) ↔ (a ≤ good))
      × (attempts_penalty a good ≤ attempts_penalty b good)
      × (attempts_penalty b good ≤ max_loss_penalty)
unfolding attempts_penalty
attempts_penalty_graded a b good h = (ground arith, ground arith, ground arith)

-- The penalty of a signal level is zero exactly at or above the floor, never above the cap, and
-- never falls when the signal weakens.
pub loss_penalty_graded :
    (weak strong floor : ℤ)
    → weak ≤ℤ strong
    → ((loss_penalty weak floor ≡ 0) ↔ (floor ≤ℤ weak))
      × (loss_penalty strong floor ≤ loss_penalty weak floor)
      × (loss_penalty weak floor ≤ max_loss_penalty)
unfolding loss_penalty ◌-ℤ◌
loss_penalty_graded weak strong floor h = (ground arith, ground arith, ground arith)

quotient_lt : (q p r : ℕ) → q * p + r ≤ 255 * p → 0 < r → q < 255
quotient_lt q p r h k = grind arith

quotient_le : (q p r : ℕ) → q * p + r ≤ 255 * p → 0 < p → q ≤ 255
quotient_le q p r h k = le_of_mul-le-mul_right {k = p} (omega arith) k

window_attempts_up :
    (sum packets : ℕ)
    → 0 < packets
    → 0 < sum % packets
    → sum / packets < 255
    → window_attempts sum packets ≡ sum / packets + 1
unfolding window_attempts
window_attempts_up sum packets h p k = ground arith

window_attempts_exact :
    (sum packets : ℕ)
    → 0 < packets
    → sum % packets ≡ 0
    → sum / packets ≤ 255
    → window_attempts sum packets ≡ sum / packets
unfolding window_attempts
window_attempts_exact sum packets h p k = ground arith

-- Over a window whose mean fits a byte, the grade is the mean of the attempts rounded up.
pub window_attempts_ceil :
    (sum packets : ℕ)
    → 0 < packets
    → sum ≤ 255 * packets
    → (sum ≤ window_attempts sum packets * packets)
      × (window_attempts sum packets * packets < sum + packets)
window_attempts_ceil sum packets h k =
    let split : sum / packets * packets + sum % packets ≡ sum =
      grind (arith, div-add-mod sum packets) in
    let low : sum % packets < packets = grind arith in
    elim (dec_lt 0 (sum % packets)) [
      | yes p ↦
          let small : sum / packets < 255 =
            quotient_lt (sum / packets) packets (sum % packets) (omega (arith, split)) p in
          rw (window_attempts_up sum packets h p small) (omega (arith, split, low))
      | no p ↦
          let small : sum / packets ≤ 255 =
            quotient_le (sum / packets) packets (sum % packets) (omega (arith, split)) h in
          rw (window_attempts_exact sum packets h (omega arith) small) (omega (arith, split))
    ]

-- The average moves strictly towards ten times the sample, without passing it, and rests there.
pub ewma_update_approaches :
    (ewma sample : ℕ)
    → ewma < 2 ^ 16
    → sample < 256
    → ((ewma < sample * 10)
        → (ewma < ewma_update ewma sample) × (ewma_update ewma sample ≤ sample * 10))
      × ((sample * 10 < ewma)
          → (ewma_update ewma sample < ewma) × (sample * 10 ≤ ewma_update ewma sample))
      × ((ewma ≡ sample * 10) → ewma_update ewma sample ≡ ewma)
unfolding ewma_update ewma_step ◌+ℤ◌ ◌-ℤ◌ quot to_word
ewma_update_approaches ewma sample h k = (ground arith, ground arith, ground arith)

-- The retransmit budget lies between its two counts and never falls when the average rises.
pub adaptive_retransmits_within :
    (e f lo hi : ℕ)
    → e ≤ f
    → lo ≤ hi
    → hi < 256
    → (lo ≤ adaptive_retransmits e lo hi)
      × (adaptive_retransmits e lo hi ≤ adaptive_retransmits f lo hi)
      × (adaptive_retransmits f lo hi ≤ hi)
unfolding adaptive_retransmits
adaptive_retransmits_within e f lo hi h k l =
    let room : sub32 hi lo ≡ hi - lo = omega arith in
    let up : (e - 15) * (hi - lo) ≤ (f - 15) * (hi - lo) = grind arith in
    let top : e < 45 → (e - 15) * (hi - lo) ≤ 30 * (hi - lo) =
      λ g. mul-le-mul_right (hi - lo) (omega arith) in
    let top' : f < 45 → (f - 15) * (hi - lo) ≤ 30 * (hi - lo) =
      λ g. mul-le-mul_right (hi - lo) (omega arith) in
    (ground (arith, room), ground (arith, room, up, top, top'), ground (arith, room, top'))

-- The retest threshold never falls when the level rises, and stops rising at the top level.
pub retest_threshold_backs_off :
    (base level : ℕ)
    → base < 2 ^ 16
    → (base ≤ retest_threshold base level)
      × (retest_threshold base level ≤ retest_threshold base (level + 1))
      × (6 ≤ level → retest_threshold base (level + 1) ≡ retest_threshold base level)
unfolding retest_threshold
retest_threshold_backs_off base zero h = ground arith
retest_threshold_backs_off base (suc zero) h = ground arith
retest_threshold_backs_off base (suc (suc zero)) h = ground arith
retest_threshold_backs_off base (suc (suc (suc zero))) h = ground arith
retest_threshold_backs_off base (suc (suc (suc (suc zero)))) h = ground arith
retest_threshold_backs_off base (suc (suc (suc (suc (suc zero))))) h = ground arith
retest_threshold_backs_off base (suc (suc (suc (suc (suc (suc n)))))) h = ground arith
