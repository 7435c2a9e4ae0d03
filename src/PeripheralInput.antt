-- ===== src/PeripheralInput.antt =====
-- src/peripheral_input.c: the held input keys that a peripheral lists in its keepalive, one word for
-- each, 0 in a free slot.
pub mod Link
pub mod Notes
pub mod Table
use zmk_feature_split_esb.Prelude.{
  ℕ, ◌+◌, ◌*◌, ◌/◌, ◌%◌, ◌^◌, Bool, true, false, not, ◌==◌, if◌then◌else◌, List, [], ◌∷◌,
}
use zmk_feature_split_esb.Keepalive.Codec.{HeldKey}
use zmk_feature_split_esb.CentralInput.State.{InputEvent}
use zmk_feature_split_esb.CentralInput.Deliver.{is_zero}

-- HELD_ENTRY_VALID
abbrev pub held_entry_valid : ℕ
held_entry_valid = 2 ^ 24

-- The parts of the word have no bit in common, so `|` is `+`.
unfoldable pub held_entry_pack : HeldKey → ℕ
held_entry_pack key = held_entry_valid + (key.reg * 2 ^ 16 + key.code)

unfoldable pub held_entry_unpack : ℕ → HeldKey
held_entry_unpack entry = record { reg = entry / 2 ^ 16 % 256; code = entry % 2 ^ 16 }

unfoldable pub has_entry : ℕ → List ℕ → Bool
has_entry entry [] = false
has_entry entry (slot ∷ slots) = if slot == entry then true else has_entry entry slots

-- The second loop of `held_entry_add`: a full table stays as it is.
unfoldable pub take_free : ℕ → List ℕ → List ℕ
take_free entry [] = []
take_free entry (slot ∷ slots) =
    let rest = take_free entry slots in if slot == 0 then entry ∷ slots else slot ∷ rest

unfoldable pub held_entry_add : ℕ → List ℕ → List ℕ
unfolding has_entry take_free
held_entry_add entry slots = if has_entry entry slots then slots else take_free entry slots

unfoldable pub held_entry_remove : ℕ → List ℕ → List ℕ
held_entry_remove entry [] = []
held_entry_remove entry (slot ∷ slots) =
    let rest = held_entry_remove entry slots in if slot == entry then 0 ∷ slots else slot ∷ rest

-- `peripheral_input_note_event` on an input event.
unfoldable pub note_event : ℕ → InputEvent → List ℕ → List ℕ
unfolding held_entry_pack held_entry_add held_entry_remove
note_event input_ev_key event slots =
    let entry = held_entry_pack (record { reg = event.reg; code = event.code }) in
    if not (event.type == input_ev_key)
    then slots
    else if not (is_zero event.value)
    then held_entry_add entry slots
    else held_entry_remove entry slots

unfoldable pub held_keys : List ℕ → List HeldKey
unfolding held_entry_unpack
held_keys [] = []
held_keys (slot ∷ slots) =
    let rest = held_keys slots in if not (slot == 0) then held_entry_unpack slot ∷ rest else rest
