-- ===== src/PeripheralMotion.antt =====
-- src/esb_peripheral.c: the running totals of lossy motion on a peripheral.
pub mod Slots
pub mod EndToEnd
use zmk_feature_split_esb.Prelude.{
  ℕ, ◌%◌, ◌^◌, Bool, true, false, ◌&&◌, ◌||◌, not, ltb, ◌==◌, if◌then◌else◌, Option, none, some,
  List, [], ◌∷◌,
}
use mathlib.Core.Option.{map as map_option}
use zmk_feature_split_esb.Prelude.Bits.{set_bit}
use zmk_feature_split_esb.Prelude.Int.{ℤ}
use zmk_feature_split_esb.Keepalive.Codec.{MotionTotal}
use zmk_feature_split_esb.CentralInput.State.{InputEvent}
use zmk_feature_split_esb.Totals.Motion.{motion_total_add, short_of}

pub record MotionSlot : Type 0 where
  pub claimed : Bool
  pub reg : ℕ
  pub code : ℕ
  pub total : ℤ

-- `motion_slot_for`, with the addition to the slot that it finds or claims: the new total and the
-- slots.
unfoldable pub add_to_slot : ℕ → ℕ → ℤ → List MotionSlot → Option (ℤ × List MotionSlot)
unfolding motion_total_add
add_to_slot reg code value [] = none
add_to_slot reg code value (slot ∷ slots) =
    let total = motion_total_add slot.total value in
    let rest = add_to_slot reg code value slots in
    if not slot.claimed
    then some (total, record { claimed = true; reg = reg; code = code; total = total } ∷ slots)
    else if slot.reg == reg && slot.code == code
    then some (total, record slot { total = total } ∷ slots)
    else map_option (λ found. (found.0, slot ∷ found.1)) rest

-- ESB_WIRE_INPUT_TOTAL is bit 1 of the sync byte.
unfoldable pub as_total :
    InputEvent → List MotionSlot → Option (ℤ × List MotionSlot) → InputEvent × List MotionSlot
as_total event slots none = (event, slots)
as_total event slots (some (total, after)) =
    (record event { value = total; sync = set_bit event.sync 1 % 256 }, after)

-- `input_ev_rel` is Zephyr's INPUT_EV_REL.
unfoldable pub motion_to_total : ℕ → InputEvent → List MotionSlot → InputEvent × List MotionSlot
unfolding add_to_slot as_total
motion_to_total input_ev_rel event slots =
    if not (event.type == input_ev_rel) || ltb 255 event.code
    then (event, slots)
    else as_total event slots (add_to_slot event.reg (event.code % 256) event.value slots)

unfoldable pub motion_totals_snapshot : List MotionSlot → List MotionTotal
unfolding short_of
motion_totals_snapshot [] = []
motion_totals_snapshot (slot ∷ slots) =
    let rest = motion_totals_snapshot slots in
    if not slot.claimed
    then rest
    else record { reg = slot.reg; code = slot.code; short_total = short_of slot.total } ∷ rest
