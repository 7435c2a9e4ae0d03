-- ===== src/PeripheralMotion/Slots.antt =====
-- src/esb_peripheral.c: the slots of `motion_slot_for` as a map from an axis to its total.
use zmk_feature_split_esb.Prelude.{
  ℕ, ◌≡◌, refl, sym, ◌∙◌, ap, true, false, ◌&&◌, not, ◌==◌, if◌then◌else◌, Option, none, some, List,
  [], ◌∷◌, arith, if_split,
}
use mathlib.Core.Option.{map as map_option}
use zmk_feature_split_esb.Prelude.Int.{ℤ, pos}
use zmk_feature_split_esb.Totals.Motion.{motion_total_add}
use zmk_feature_split_esb.PeripheralMotion.{MotionSlot, add_to_slot}

-- The total of an axis: 0 where no slot is its own.
abbrev pub total_at : ℕ → ℕ → List MotionSlot → ℤ
total_at reg code [] = pos 0
total_at reg code (slot ∷ slots) =
    let rest = total_at reg code slots in
    if slot.claimed && (slot.reg == reg && slot.code == code) then slot.total else rest

abbrev pub AllFree : List MotionSlot → Type 0
AllFree [] = Unit
AllFree (slot ∷ slots) = (slot.claimed ≡ false) × (slot.total ≡ pos 0) × AllFree slots

-- Behind the claimed slots stand those that no axis has claimed, as `motion_slots` boots.
pub data IsTable : List MotionSlot → Type 0 where
  free : {slots : List MotionSlot} → AllFree slots → IsTable slots
  claimed :
      {slot : MotionSlot} {slots : List MotionSlot}
      → slot.claimed ≡ true
      → IsTable slots
      → IsTable (slot ∷ slots)

-- What `add_to_slot` promises of its result.
pub record IsAdded (reg code : ℕ) (value : ℤ) (before : List MotionSlot) (total : ℤ)
    (after : List MotionSlot) : Type 0 where
  pub is_table : IsTable after
  pub sum : total ≡ motion_total_add (total_at reg code before) value
  pub own : total_at reg code after ≡ total
  pub others :
      (reg' code' : ℕ)
      → (reg' == reg && code' == code) ≡ false
      → total_at reg' code' after ≡ total_at reg' code' before

total_at-AllFree :
    (reg code : ℕ) (slots : List MotionSlot) → AllFree slots → total_at reg code slots ≡ pos 0
total_at-AllFree reg code [] f = refl
total_at-AllFree reg code (slot ∷ slots) (c, z, f) =
    let ih = total_at-AllFree reg code slots f in ground arith

-- No slot is left for the axis: it has none of its own, and all are claimed.
abbrev pub IsFull : ℕ → ℕ → List MotionSlot → Type 0
IsFull reg code [] = Unit
IsFull reg code (slot ∷ slots) =
    (slot.claimed ≡ true) × ((slot.reg == reg && slot.code == code) ≡ false) × IsFull reg code slots

abbrev pub IsResult : ℕ → ℕ → ℤ → List MotionSlot → Option (ℤ × List MotionSlot) → Type 0
IsResult reg code value slots none = IsFull reg code slots
IsResult reg code value slots (some (total, after)) = IsAdded reg code value slots total after

claim_free :
    (reg code : ℕ) (value : ℤ) (slot : MotionSlot) (slots : List MotionSlot)
    → AllFree (slot ∷ slots)
    → IsAdded reg code value (slot ∷ slots) (motion_total_add slot.total value) (
        record { claimed = true; reg = reg; code = code; total = motion_total_add slot.total value }
        ∷ slots)
claim_free reg code value slot slots (c, z, f) = record {
  is_table = claimed refl (free f);
  sum =
      ap (λ t. motion_total_add t value) (sym (rw (c) (total_at-AllFree reg code slots f) ∙ sym z));
  own = ground arith;
  others = λ reg' code' n. let e = total_at-AllFree reg' code' slots f in ground arith;
}

add_own :
    (reg code : ℕ) (value : ℤ) (slot : MotionSlot) (slots : List MotionSlot)
    → slot.claimed ≡ true
    → (slot.reg == reg && slot.code == code) ≡ true
    → IsTable slots
    → IsAdded reg code value
        (slot ∷ slots)
        (motion_total_add slot.total value)
        (record slot { total = motion_total_add slot.total value } ∷ slots)
add_own reg code value slot slots c m t = record {
  is_table = claimed c t;
  sum = ap (λ t. motion_total_add t value) (sym (rw (c, m) refl));
  own = rw (c, m) refl;
  others = λ reg' code' n. ground arith;
}

add_behind :
    (reg code : ℕ) (value : ℤ) (slot : MotionSlot) (slots : List MotionSlot)
    (found : Option (ℤ × List MotionSlot))
    → slot.claimed ≡ true
    → (slot.reg == reg && slot.code == code) ≡ false
    → IsResult reg code value slots found
    → IsResult reg code value (slot ∷ slots) (map_option (λ found. (found.0, slot ∷ found.1)) found)
add_behind reg code value slot slots none c m r = (c, m, r)
add_behind reg code value slot slots (some (total, after)) c m r = record {
  is_table = claimed c r.is_table;
  sum = r.sum ∙ ap (λ t. motion_total_add t value) (sym (rw (c, m) refl));
  own = rw (c, m) r.own;
  others = λ reg' code' n. let e = r.others reg' code' n in ground arith;
}

-- The slots are a map from an axis to its total: a report of an axis adds to its own total, from 0
-- with a slot that it claims, and changes no other; without a slot all are claimed by other axes.
pub add_to_slot-IsResult :
    (reg code : ℕ) (value : ℤ) (slots : List MotionSlot)
    → IsTable slots
    → IsResult reg code value slots (add_to_slot reg code value slots)
unfolding add_to_slot
add_to_slot-IsResult reg code value [] t = tt
add_to_slot-IsResult reg code value (slot ∷ slots) (free (c, z, f)) =
    if_split (IsResult reg code value (slot ∷ slots)) (not slot.claimed)
      (λ e. claim_free reg code value slot slots (c, z, f)) (λ e. absurd (cc))
add_to_slot-IsResult reg code value (slot ∷ slots) (claimed c t) =
    let ih = add_to_slot-IsResult reg code value slots t in
    if_split (IsResult reg code value (slot ∷ slots)) (not slot.claimed) (λ e. absurd (cc))
      (λ e.
        if_split (IsResult reg code value (slot ∷ slots)) (slot.reg == reg && slot.code == code)
          (λ m. add_own reg code value slot slots c m t)
          (λ n. add_behind reg code value slot slots (add_to_slot reg code value slots) c n ih))
