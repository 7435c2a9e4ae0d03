-- ===== src/Tests/PeripheralInput.antt =====
-- src/peripheral_input.c.
use zmk_feature_split_esb.Prelude.{
  ℕ, ◌≡◌, ◌⊎◌, inl, inr, refl, true, false, not, if◌then◌else◌, List, [], ◌∷◌, arith,
}
use zmk_feature_split_esb.Keepalive.Codec.RoundTrip.{Reads, keepalive_encode-Reads}
use zmk_feature_split_esb.CentralInput.State.{tracks_key, input_keys_equal}
use zmk_feature_split_esb.CentralInput.Deliver.{is_zero}
use zmk_feature_split_esb.CentralInput.Reconcile.{reconcile_keys}
use zmk_feature_split_esb.CentralInput.Laws.{IsFull}
use zmk_feature_split_esb.PeripheralInput.{held_entry_pack, has_entry, note_event, held_keys}
use zmk_feature_split_esb.PeripheralInput.Link.{IsKey, reconcile_keys-held_keys}
use zmk_feature_split_esb.PeripheralInput.Notes.{note_event-has_entry}
use zmk_feature_split_esb.PeripheralInput.Table.{IsTable}
use zmk_feature_split_esb.Tests.LittleEndian.{little_endian}
use zmk_feature_split_esb.Tests.Keepalive.{snapshot, snapshot-IsFilled}
use zmk_feature_split_esb.Tests.CentralInput.{left_button, pipe, press}

-- The left button is held, and a slot is free.
abbrev slots : List ℕ
slots = 16843024 ∷ 0 ∷ []

left_button-IsKey : IsKey left_button
left_button-IsKey = record { reg = omega arith; code = omega arith }

slots-IsTable : IsTable slots
unfolding has_entry
slots-IsTable = record {
  words = (inr (omega arith, omega arith), (inl refl, tt));
  unique = (λ n. refl, (λ n. refl, tt));
}

filled_from : snapshot.held_keys ≡ held_keys slots
unfolding held_keys
filled_from = refl

-- The keepalive of the snapshot.
abbrev sent : List ℕ
sent = (keepalive_encode-Reads little_endian snapshot 40 snapshot-IsFilled (omega arith)).0

sent-Reads : Reads little_endian snapshot sent
sent-Reads = (keepalive_encode-Reads little_endian snapshot 40 snapshot-IsFilled (omega arith)).2

reconcile_keys-held_keys_example :
    (tracks_key left_button (reconcile_keys little_endian 1 2 sent pipe).1.keys
      ≡ has_entry (held_entry_pack left_button) slots)
    ⊎ (IsFull (reconcile_keys little_endian 1 2 sent pipe).1.keys
        × (has_entry (held_entry_pack left_button) slots ≡ true)
        × (tracks_key left_button (reconcile_keys little_endian 1 2 sent pipe).1.keys ≡ false))
reconcile_keys-held_keys_example =
    reconcile_keys-held_keys little_endian 1 2 snapshot sent sent-Reads left_button slots pipe
      filled_from snapshot-IsFilled slots-IsTable.words left_button-IsKey

note_event-has_entry_example :
    (has_entry (held_entry_pack left_button) (note_event 1 press slots) ≡ (
      if input_keys_equal (record { reg = press.reg; code = press.code }) left_button
      then not (is_zero press.value)
      else has_entry (held_entry_pack left_button) slots))
    ⊎ ((is_zero press.value ≡ false) × (has_entry 0 slots ≡ false))
note_event-has_entry_example =
    note_event-has_entry 1 press slots left_button refl left_button-IsKey left_button-IsKey
      slots-IsTable.unique
