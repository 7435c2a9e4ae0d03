-- ===== src/PeripheralCore/Sizes.antt =====
-- src/peripheral_input.c and src/peripheral.c: the tables keep the sizes that the build gives them.
use zmk_feature_split_esb.Prelude.{
  ℕ, ◌≤◌, ◌≡◌, refl, not, leb, ◌==◌, if_either, none, some, List, [], ◌∷◌, length, get_elem?, set,
  length-set, arith,
}
use zmk_feature_split_esb.Prelude.Int.{ℤ, ◌+ℤ◌}
use zmk_feature_split_esb.EventWire.{Event, input_event, other_event}
use zmk_feature_split_esb.HopPolicy.Mask.{length-mask_set}
use zmk_feature_split_esb.Keepalive.Bitmap.{position_count, bitmap_set}
use zmk_feature_split_esb.CentralInput.State.{InputEvent}
use zmk_feature_split_esb.CentralInput.Deliver.{is_zero}
use zmk_feature_split_esb.PeripheralInput.{
  held_entry_pack, has_entry, take_free, held_entry_add, held_entry_remove, note_event, held_keys,
}
use zmk_feature_split_esb.Totals.Sensor.{sensor_udeg, sensor_udeg_val1, sensor_udeg_val2}
use zmk_feature_split_esb.PeripheralCore.{
  Peripheral, Layout, sensor_event_to_total, note_key_event, note_split_event,
}

-- A list of the length of another.
abbrev SameSize : List ℕ → List ℕ → Type 0
SameSize xs ys = length ys ≡ length xs

length-take_free : (entry : ℕ) (slots : List ℕ) → SameSize slots (take_free entry slots)
unfolding take_free
length-take_free entry [] = refl
length-take_free entry (slot ∷ slots) =
    if_either (SameSize (slot ∷ slots)) (slot == 0) refl
      (omega (arith, length-take_free entry slots))

length-held_entry_remove :
    (entry : ℕ) (slots : List ℕ) → SameSize slots (held_entry_remove entry slots)
unfolding held_entry_remove
length-held_entry_remove entry [] = refl
length-held_entry_remove entry (slot ∷ slots) =
    if_either (SameSize (slot ∷ slots)) (slot == entry) refl
      (omega (arith, length-held_entry_remove entry slots))

length-note_event :
    (input_ev_key : ℕ) (e : InputEvent) (slots : List ℕ)
    → SameSize slots (note_event input_ev_key e slots)
unfolding note_event held_entry_add
length-note_event input_ev_key e slots =
    let entry = held_entry_pack (record { reg = e.reg; code = e.code }) in
    if_either (SameSize slots) (not (e.type == input_ev_key)) refl (
      if_either (SameSize slots) (not (is_zero e.value))
        (if_either (SameSize slots) (has_entry entry slots) refl (length-take_free entry slots))
        (length-held_entry_remove entry slots))

-- A slot lists one key at most.
pub length-held_keys : (slots : List ℕ) → length (held_keys slots) ≤ length slots
unfolding held_keys
length-held_keys [] = omega arith
length-held_keys (slot ∷ slots) = ground (arith, length-held_keys slots)

-- The sizes of the three tables.
pub record IsSized (p q : Peripheral) : Type 0 where
  pub positions : length q.pressed_positions ≡ length p.pressed_positions
  pub held : length q.held_input_keys ≡ length p.held_input_keys
  pub sensors : length q.sensor_total_udeg ≡ length p.sensor_total_udeg

module _ (z : Layout) where
  length-sensor_event_to_total :
      (bytes : List ℕ) (totals : List ℤ)
      → length (sensor_event_to_total z bytes totals).1 ≡ length totals
  unfolding sensor_event_to_total
  length-sensor_event_to_total bytes totals =
      let (index, val1, val2) = z.sensor_of bytes in
      elim (get_elem? totals index)
        as (λ found.
          let noted : List ℕ × List ℤ = elim found [
            | none ↦ (bytes, totals)
            | some total ↦ (
              z.with_value (sensor_udeg_val1 (total +ℤ sensor_udeg val1 val2))
                  (sensor_udeg_val2 (total +ℤ sensor_udeg val1 val2)) bytes,
              set totals index (total +ℤ sensor_udeg val1 val2),
            )
          ] in
          length noted.1 ≡ length totals) [ none ↦ refl | some total ↦ length-set totals index _ ]

  pub note_split_event-IsSized :
      (input_ev_key : ℕ) (event : Event) (p : Peripheral)
      → IsSized p (note_split_event z input_ev_key event p).1
  unfolding note_split_event note_key_event bitmap_set
  note_split_event-IsSized input_ev_key (input_event e) p = record {
    positions = refl;
    held = length-note_event input_ev_key e p.held_input_keys;
    sensors = refl;
  }
  note_split_event-IsSized input_ev_key (other_event type bytes) p =
      if_either (λ (r : Event × Peripheral). IsSized p r.1) (type == z.key_type)
        (record {
          positions =
              if_either (λ (b : List ℕ). length b ≡ length p.pressed_positions)
                (leb position_count (z.key_of bytes).0) refl
                (length-mask_set p.pressed_positions (z.key_of bytes).0 _);
          held = refl;
          sensors = refl;
        })
        (if_either (λ (r : Event × Peripheral). IsSized p r.1) (type == z.sensor_type)
          (record {
            positions = refl;
            held = refl;
            sensors = length-sensor_event_to_total bytes p.sensor_total_udeg;
          })
          (record { positions = refl; held = refl; sensors = refl }))
