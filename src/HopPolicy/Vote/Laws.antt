-- ===== src/HopPolicy/Vote/Laws.antt =====
-- Loss, penalties and votes of src/hop_policy.c, pipe by pipe.
use zmk_feature_split_esb.Prelude.{
  ℕ, zero, suc, ◌+◌, ◌*◌, ◌%◌, ◌^◌, ◌≤◌, ◌<◌, ◌≡◌, refl, ◌⊎◌, inl, inr, true, false, leb, ltb, ◌&&◌,
  if◌then◌else◌, List, length, get_or, set, length-set, get_or-set, arith, Bool-cases, ◌∙◌, sym,
  ℕ_discrete,
}
use native.Mathlib.Nat.{zero-mul}
use mathlib.Core.Path.{subst}
use zmk_feature_split_esb.Prelude.Bits.{test_bit, test_bit-zero}
use zmk_feature_split_esb.Prelude.Int.{ℤ}
use zmk_feature_split_esb.HopPolicy.Vote.{
  pipe_penalty, penalty_from, window_penalty, next_loss, accrue_from, accrue_loss, weighted_from,
  hop_vote,
}

module _ (motion_mask active_mask : ℕ) (rssi_dbm : List ℤ) (floor_dbm : ℤ) where
  abbrev next : ℕ → ℕ → ℕ
  next index loss = next_loss motion_mask active_mask rssi_dbm floor_dbm index loss

  accrue_from-get_or :
      (n index i : ℕ) (link_loss : List ℕ)
      → index + n ≤ length link_loss
      → get_or (accrue_from motion_mask active_mask rssi_dbm floor_dbm n index link_loss) i 0 ≡ (
          if leb index i && ltb i (index + n)
          then next i (get_or link_loss i 0)
          else get_or link_loss i 0)
  unfolding accrue_from
  accrue_from-get_or zero index i link_loss h = ground arith
  accrue_from-get_or (suc n) index i link_loss h =
      let fresh = next index (get_or link_loss index 0) in
      let ih =
        accrue_from-get_or n (suc index) i (set link_loss index fresh)
          (omega (arith, length-set link_loss index fresh)) in
      let read = get_or-set link_loss index i fresh 0 (omega arith) in
      elim (ℕ_discrete index i) [
        | yes e ↦ ground (arith, ih, read, e)
        | no e ↦ ground (arith, ih, read, e)
      ]

  -- After a window each of the `count` pipes has the loss that its own bits and level give, and a
  -- pipe past them keeps its loss.
  pub accrue_loss-get_or :
      (count i : ℕ) (link_loss : List ℕ)
      → count ≤ length link_loss
      → get_or (accrue_loss link_loss count motion_mask active_mask rssi_dbm floor_dbm) i 0 ≡ (
          if ltb i count
          then next_loss motion_mask active_mask rssi_dbm floor_dbm i (get_or link_loss i 0)
          else get_or link_loss i 0)
  unfolding accrue_loss
  accrue_loss-get_or count i link_loss h =
      ground (arith, accrue_from-get_or count 0 i link_loss (omega arith))

weighted_from-zero :
    (link_loss weights : List ℕ) (n index weighted : ℕ)
    → ((i : ℕ) → i < index + n → get_or link_loss i 0 ≡ 0)
    → weighted < 2 ^ 32
    → weighted_from link_loss weights n index weighted ≡ weighted
unfolding weighted_from
weighted_from-zero link_loss weights zero index weighted h k = refl
weighted_from-zero link_loss weights (suc n) index weighted h k =
    let same : (weighted + get_or link_loss index 0 * get_or weights index 0 % 2 ^ 32) % 2 ^ 32
        ≡ weighted =
      rw (h index (omega arith), zero-mul) (omega arith) in
    rw same
      (weighted_from-zero link_loss weights n (suc index) weighted (λ i l. h i (omega arith)) k)

-- Pipes that do not poll never drive a hop: after a window with no active pipe the vote fails, for
-- a threshold above 0.
pub hop_vote-idle :
    (link_loss weights : List ℕ) (count motion_mask threshold : ℕ) (rssi_dbm : List ℤ)
    (floor_dbm : ℤ)
    → count ≤ length link_loss
    → 0 < threshold
    → hop_vote
        (accrue_loss link_loss count motion_mask 0 rssi_dbm floor_dbm)
        weights
        count
        threshold
      ≡ false
unfolding hop_vote next_loss
hop_vote-idle link_loss weights count motion_mask threshold rssi_dbm floor_dbm h k =
    let after = accrue_loss link_loss count motion_mask 0 rssi_dbm floor_dbm in
    let quiet : (i : ℕ) → i < 0 + count → get_or after i 0 ≡ 0 = λ i l.
      accrue_loss-get_or motion_mask 0 rssi_dbm floor_dbm count i link_loss h
      ∙ idle i (omega arith) in
    rw (weighted_from-zero after weights count 0 0 quiet (omega arith)) (ground arith)
  where
    idle :
        (i : ℕ)
        → i < count
        → (if ltb i count
            then next_loss motion_mask 0 rssi_dbm floor_dbm i (get_or link_loss i 0)
            else get_or link_loss i 0)
          ≡ 0
    idle i l = ground (arith, test_bit-zero i)

module _ (motion_mask active_mask : ℕ) (rssi_dbm : List ℤ) (floor_dbm : ℤ) where
  abbrev penalty : ℕ → ℕ
  penalty i = pipe_penalty motion_mask rssi_dbm floor_dbm i

  -- `w` is the highest penalty of the active pipes below `top`, or 0.
  abbrev pub IsHighest : ℕ → ℕ → Type 0
  IsHighest top w =
      ((i : ℕ) → i < top → test_bit active_mask i ≡ true → penalty i ≤ w)
      × ((w ≡ 0) ⊎ ((i : ℕ) × (i < top) × (test_bit active_mask i ≡ true) × (w ≡ penalty i)))

  abbrev taken : ℕ → ℕ → ℕ
  taken index worst =
      if test_bit active_mask index
      then (if ltb worst (penalty index) then penalty index else worst)
      else worst

  step_IsHighest :
      (index worst : ℕ) → IsHighest index worst → IsHighest (suc index) (taken index worst)
  step_IsHighest index worst (above, from) = (
    below,
    elim (Bool-cases (test_bit active_mask index && ltb worst (penalty index))) [
      | inl e ↦ inr (index, omega arith, ground arith, ground arith)
      | inr e ↦
          let keep : taken index worst ≡ worst = ground arith in
          rw keep (elim from [ inl z ↦ inl z | inr (i, l, on, w) ↦ inr (i, omega arith, on, w) ])
    ],
  )
    where
      below :
          (i : ℕ) → i < suc index → test_bit active_mask i ≡ true → penalty i ≤ taken index worst
      below i l on = elim (ℕ_discrete i index) [
        | yes e ↦
            subst (λ k. penalty k ≤ taken index worst) (sym e)
              (ground (arith, subst (λ k. test_bit active_mask k ≡ true) e on))
        | no n ↦ ground (arith, above i (omega arith) on)
      ]

  penalty_from-IsHighest :
      (n index worst top : ℕ)
      → index + n ≡ top
      → IsHighest index worst
      → IsHighest top (penalty_from motion_mask active_mask rssi_dbm floor_dbm n index worst)
  unfolding penalty_from
  penalty_from-IsHighest zero index worst top e h =
      let e' : index ≡ top = omega arith in subst (λ t. IsHighest t worst) e' h
  penalty_from-IsHighest (suc n) index worst top e h =
      penalty_from-IsHighest n (suc index) (taken index worst) top (omega arith)
        (step_IsHighest index worst h)

  -- The window's penalty is that of an active pipe, or 0, and no active pipe has a higher one.
  pub window_penalty-IsHighest :
      (count : ℕ)
      → IsHighest count (window_penalty motion_mask active_mask rssi_dbm floor_dbm count)
  unfolding window_penalty
  window_penalty-IsHighest count =
      penalty_from-IsHighest count 0 0 count (omega arith) ((λ i l. absurd (omega arith)), inl refl)
