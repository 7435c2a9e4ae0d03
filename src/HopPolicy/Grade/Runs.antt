-- ===== src/HopPolicy/Grade/Runs.antt =====
-- The counters of src/hop_policy.c over many windows.
use zmk_feature_split_esb.Prelude.{
  ℕ, zero, suc, ◌+◌, ◌-◌, ◌/◌, ◌<◌, min, ◌≡◌, ◌≢◌, refl, Bool, false, leb, if◌then◌else◌, arith,
  List, [], ◌∷◌, ◌||◌,
}
use native.Mathlib.Nat.{zero-add, add-zero, div-eq_of_lt, add-div_right}
use zmk_feature_split_esb.HopPolicy.Grade.{
  should_hop, saturating_add, window_period_fires, should_beacon, Beaconing,
}
use zmk_feature_split_esb.HopPolicy.Grade.Laws.{saturating_add_lem}

-- Windows of one penalty each, from a streak: whether a hop fired in any of them.
pub hop_fires : ℕ → ℕ → List ℕ → Bool
hop_fires threshold streak [] = false
hop_fires threshold streak (p ∷ ps) =
    let (fired, streak') = should_hop streak p threshold in fired || hop_fires threshold streak' ps

abbrev sum : List ℕ → ℕ
sum [] = 0
sum (x ∷ xs) = x + sum xs

-- A window with loss: its penalty is a byte other than 0.
abbrev AllLossy : List ℕ → Type 0
AllLossy [] = Unit {0}
AllLossy (p ∷ ps) = (0 < p) × (p < 256) × AllLossy ps

hop_fires_from :
    (threshold streak : ℕ) (ps : List ℕ)
    → threshold < 256
    → streak < threshold
    → AllLossy ps
    → hop_fires threshold streak ps ≡ leb threshold (streak + sum ps)
unfolding hop_fires should_hop
hop_fires_from threshold streak [] h k l = ground arith
hop_fires_from threshold streak (p ∷ ps) h k l = ground (
  arith,
  saturating_add_lem streak p (omega arith) (omega arith),
  hop_fires_from threshold (streak + p) ps,
)

-- Over windows that all have loss, from a clean streak, a hop fires exactly when their penalties
-- add up to the threshold, for a threshold from 1 to 255.
pub should_hop-fires_iff_sum :
    (threshold : ℕ) (ps : List ℕ)
    → 0 < threshold
    → threshold < 256
    → AllLossy ps
    → hop_fires threshold 0 ps ≡ leb threshold (sum ps)
should_hop-fires_iff_sum threshold ps h k l = rw (hop_fires_from threshold 0 ps k h l) (rw zero-add)

-- A threshold above 255 never fires, and a clean window clears the streak.
pub should_hop_edges :
    (streak penalty threshold : ℕ)
    → streak < 256
    → penalty < 256
    → (255 < threshold → (should_hop streak penalty threshold).0 ≡ false)
      × (should_hop streak 0 threshold ≡ (false, 0))
      × ((should_hop streak penalty threshold).1 < 256)
unfolding should_hop saturating_add
should_hop_edges streak penalty threshold h k = (ground arith, refl, ground arith)

-- How often a window counter fires in `n` ticks.
pub period_fires : ℕ → ℕ → ℕ → ℕ
period_fires zero counter period = 0
period_fires (suc n) counter period =
    let (fired, counter') = window_period_fires counter period in
    (if fired then 1 else 0) + period_fires n counter' period

-- It fires once in every `period` ticks.
pub window_period_fires-rate :
    (n counter period : ℕ)
    → 0 < period
    → period < 256
    → counter < period
    → period_fires n counter period ≡ (counter + n) / period
unfolding period_fires window_period_fires
window_period_fires-rate zero counter period h k l = rw (add-zero, div-eq_of_lt l)
window_period_fires-rate (suc n) counter period h k l = ground (
  arith,
  window_period_fires-rate n (counter + 1) period h k,
  window_period_fires-rate n 0 period h k,
  add-div_right n h,
)

-- How many of `n` windows of one epoch are announced.
pub beacons : ℕ → ℕ → Beaconing → ℕ → ℕ
beacons zero epoch b repeat_windows = 0
beacons (suc n) epoch b repeat_windows =
    let (sent, b') = should_beacon epoch b repeat_windows in
    (if sent then 1 else 0) + beacons n epoch b' repeat_windows

beacons_same :
    (n epoch left repeat_windows : ℕ)
    → beacons n epoch (record { beaconed_epoch = epoch; repeats_left = left }) repeat_windows
      ≡ min n left
unfolding beacons should_beacon
beacons_same zero epoch left r = omega arith
beacons_same (suc n) epoch left r =
    ground (arith, beacons_same n epoch (left - 1) r, beacons_same n epoch left r)

-- A changed epoch is announced in its first `repeat_windows` windows and in no later one.
pub should_beacon-burst :
    (n epoch repeat_windows : ℕ) (b : Beaconing)
    → epoch ≢ b.beaconed_epoch
    → beacons n epoch b repeat_windows ≡ min n repeat_windows
unfolding beacons should_beacon
should_beacon-burst zero epoch r b h = omega arith
should_beacon-burst (suc n) epoch r b h =
    ground (arith, beacons_same n epoch (r - 1) r, beacons_same n epoch 0 r)
