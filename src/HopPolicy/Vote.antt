-- ===== src/HopPolicy/Vote.antt =====
-- src/hop_policy.c: the loss of each pipe over the windows, the penalty of a window and the vote to
-- hop. A pipe mask is a word with one bit to a pipe; `1u << index` is used below 32.
pub mod Laws
use zmk_feature_split_esb.Prelude.{
  ℕ, zero, suc, ◌+◌, ◌*◌, ◌%◌, ◌^◌, Bool, true, false, ltb, leb, ◌==◌, if◌then◌else◌, List, [], ◌∷◌,
  get_or, set,
}
use zmk_feature_split_esb.Prelude.Bits.{test_bit}
use zmk_feature_split_esb.Prelude.Int.{ℤ, pos}
use zmk_feature_split_esb.HopPolicy.Grade.{loss_penalty, max_loss_penalty, saturating_add}

-- What an actively polling pipe adds in a window.
unfoldable pub pipe_penalty : ℕ → List ℤ → ℤ → ℕ → ℕ
pipe_penalty motion_mask rssi_dbm floor_dbm index =
    if test_bit motion_mask index
    then loss_penalty (get_or rssi_dbm index (pos 0)) floor_dbm
    else max_loss_penalty

penalty_from : ℕ → ℕ → List ℤ → ℤ → ℕ → ℕ → ℕ → ℕ
penalty_from motion_mask active_mask rssi_dbm floor_dbm zero index worst = worst
penalty_from motion_mask active_mask rssi_dbm floor_dbm (suc n) index worst =
    let penalty = pipe_penalty motion_mask rssi_dbm floor_dbm index in
    penalty_from motion_mask active_mask rssi_dbm floor_dbm n (suc index)
      (if test_bit active_mask index then (if ltb worst penalty then penalty else worst) else worst)

unfoldable pub window_penalty : ℕ → ℕ → List ℤ → ℤ → ℕ → ℕ
unfolding penalty_from
window_penalty motion_mask active_mask rssi_dbm floor_dbm count =
    penalty_from motion_mask active_mask rssi_dbm floor_dbm count 0 0

-- The new `link_loss[index]`.
unfoldable pub next_loss : ℕ → ℕ → List ℤ → ℤ → ℕ → ℕ → ℕ
next_loss motion_mask active_mask rssi_dbm floor_dbm index loss =
    let penalty = pipe_penalty motion_mask rssi_dbm floor_dbm index in
    if test_bit active_mask index
    then (if penalty == 0 then 0 else saturating_add loss penalty)
    else 0

accrue_from : ℕ → ℕ → List ℤ → ℤ → ℕ → ℕ → List ℕ → List ℕ
accrue_from motion_mask active_mask rssi_dbm floor_dbm zero index link_loss = link_loss
accrue_from motion_mask active_mask rssi_dbm floor_dbm (suc n) index link_loss =
    accrue_from motion_mask active_mask rssi_dbm floor_dbm n (suc index) (
      set link_loss index
        (next_loss motion_mask active_mask rssi_dbm floor_dbm index (get_or link_loss index 0)))

-- The new `link_loss`.
unfoldable pub accrue_loss : List ℕ → ℕ → ℕ → ℕ → List ℤ → ℤ → List ℕ
unfolding accrue_from
accrue_loss link_loss count motion_mask active_mask rssi_dbm floor_dbm =
    accrue_from motion_mask active_mask rssi_dbm floor_dbm count 0 link_loss

-- `uint32_t` sums wrap.
weighted_from : List ℕ → List ℕ → ℕ → ℕ → ℕ → ℕ
weighted_from link_loss weights zero index weighted = weighted
weighted_from link_loss weights (suc n) index weighted =
    weighted_from link_loss weights n (suc index)
      ((weighted + get_or link_loss index 0 * get_or weights index 0 % 2 ^ 32) % 2 ^ 32)

unfoldable pub hop_vote : List ℕ → List ℕ → ℕ → ℕ → Bool
unfolding weighted_from
hop_vote link_loss weights count threshold =
    leb threshold (weighted_from link_loss weights count 0 0)
