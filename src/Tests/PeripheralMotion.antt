-- ===== src/Tests/PeripheralMotion.antt =====
-- src/esb_peripheral.c, src/esb_motion_total.h.
use zmk_feature_split_esb.Prelude.{◌≡◌, refl, true, false, List, [], ◌∷◌, arith}
use zmk_feature_split_esb.Prelude.Int.{ℤ, pos, negsuc, ◌+ℤ◌, to_word}
use zmk_feature_split_esb.Totals.Motion.{MotionTrack}
use zmk_feature_split_esb.PeripheralMotion.{MotionSlot, add_to_slot}
use zmk_feature_split_esb.PeripheralMotion.Slots.{
  IsTable, free, claimed, IsResult, add_to_slot-IsResult,
}
use zmk_feature_split_esb.PeripheralMotion.EndToEnd.{
  Fate, lost, arrives, healed, forwarded, moved, owed_after, IsOwed, forwarded-moved,
}

-- Two reports are lost; a total brings them, and a keepalive the next one that is lost.
abbrev reports : List (ℤ × Fate)
reports =
    (pos 5, arrives)
    ∷ (pos 7, lost)
    ∷ (negsuc 2, lost)
    ∷ (pos 1, arrives)
    ∷ (pos 9, lost)
    ∷ (pos 2, healed)
    ∷ []

-- The total is about to wrap.
abbrev track : MotionTrack
track = record { last_total = pos 2147483640; valid = true }

track-IsOwed : IsOwed (pos 2147483640) track (pos 0)
unfolding to_word
track-IsOwed = record { valid = refl; word = refl }

forwarded-moved_example :
    forwarded reports (pos 2147483640) track +ℤ owed_after reports (pos 0) ≡ pos 0 +ℤ moved reports
unfolding ◌+ℤ◌
forwarded-moved_example =
    forwarded-moved reports (pos 2147483640) (pos 0) track track-IsOwed
      ((omega arith, omega arith), ((omega arith, omega arith), ((omega arith, omega arith), tt)))

abbrev slots : List MotionSlot
slots =
    record { claimed = true; reg = 1; code = 0; total = pos 40 }
    ∷ record { claimed = false; reg = 0; code = 0; total = pos 0 }
    ∷ []

slots-IsTable : IsTable slots
slots-IsTable = claimed refl (free (refl, refl, tt))

add_to_slot-IsResult_example : IsResult 1 1 (negsuc 4) slots (add_to_slot 1 1 (negsuc 4) slots)
add_to_slot-IsResult_example = add_to_slot-IsResult 1 1 (negsuc 4) slots slots-IsTable
