-- ===== src/PeripheralInput/Table.antt =====
-- src/peripheral_input.c: noting events keeps the table well formed.
use zmk_feature_split_esb.Prelude.{
  ℕ, ◌≡◌, ◌≢◌, refl, inl, inr, false, not, ◌==◌, List, [], ◌∷◌, All, arith, if_either, if_split,
}
use zmk_feature_split_esb.Keepalive.Codec.{HeldKey}
use zmk_feature_split_esb.CentralInput.State.{InputEvent}
use zmk_feature_split_esb.CentralInput.Deliver.{is_zero}
use zmk_feature_split_esb.PeripheralInput.{
  held_entry_pack, has_entry, take_free, held_entry_add, held_entry_remove, note_event,
}
use zmk_feature_split_esb.PeripheralInput.Link.{IsEntry, IsKey}
use zmk_feature_split_esb.PeripheralInput.Notes.{IsUnique}

-- Free slots and words of keys only, no key in two slots.
pub record IsTable (slots : List ℕ) : Type 0 where
  pub words : All IsEntry slots
  pub unique : IsUnique slots

module _ (entry : ℕ) where
  take_free-absent :
      (j : ℕ) (slots : List ℕ)
      → entry ≢ j
      → has_entry j slots ≡ false
      → has_entry j (take_free entry slots) ≡ false
  unfolding has_entry take_free
  take_free-absent j [] n h = refl
  take_free-absent j (slot ∷ slots) n h =
      if_split (λ (t : List ℕ). has_entry j t ≡ false) (slot == 0) (λ e. ground (arith, n, h))
        (λ e. ground (arith, h, take_free-absent j slots n (ground (arith, h))))

  take_free-IsUnique :
      (slots : List ℕ)
      → has_entry entry slots ≡ false
      → IsUnique slots
      → IsUnique (take_free entry slots)
  unfolding has_entry take_free
  take_free-IsUnique [] h d = tt
  take_free-IsUnique (slot ∷ slots) h (apart, d) =
      let absent : has_entry entry slots ≡ false = ground (arith, h) in
      if_split IsUnique (slot == 0) (λ e. ((λ n. absent), d))
        (λ e. (
          λ n. take_free-absent slot slots (λ q. absurd (ground (arith, h, q))) (apart n),
          take_free-IsUnique slots absent d,
        ))

  take_free-words :
      (slots : List ℕ) → IsEntry entry → All IsEntry slots → All IsEntry (take_free entry slots)
  unfolding take_free
  take_free-words [] w v = tt
  take_free-words (slot ∷ slots) w (v, vs) =
      if_either (All IsEntry) (slot == 0) (w, vs) (v, take_free-words slots w vs)

  remove-absent :
      (j : ℕ) (slots : List ℕ)
      → j ≢ 0
      → has_entry j slots ≡ false
      → has_entry j (held_entry_remove entry slots) ≡ false
  unfolding has_entry held_entry_remove
  remove-absent j [] n h = refl
  remove-absent j (slot ∷ slots) n h =
      if_split (λ (t : List ℕ). has_entry j t ≡ false) (slot == entry) (λ e. ground (arith, n, h))
        (λ e. ground (arith, h, remove-absent j slots n (ground (arith, h))))

  remove-IsUnique : (slots : List ℕ) → IsUnique slots → IsUnique (held_entry_remove entry slots)
  unfolding held_entry_remove
  remove-IsUnique [] d = tt
  remove-IsUnique (slot ∷ slots) (apart, d) =
      if_either IsUnique (slot == entry) (λ n. absurd (n refl), d)
        (λ n. remove-absent slot slots n (apart n), remove-IsUnique slots d)

  remove-words : (slots : List ℕ) → All IsEntry slots → All IsEntry (held_entry_remove entry slots)
  unfolding held_entry_remove
  remove-words [] v = tt
  remove-words (slot ∷ slots) (v, vs) =
      if_either (All IsEntry) (slot == entry) (inl refl, vs) (v, remove-words slots vs)

packed_word : (key : HeldKey) → IsKey key → IsEntry (held_entry_pack key)
unfolding held_entry_pack
packed_word key v = inr (omega arith, omega (arith, v.reg, v.code))

-- Noting any event keeps the table well formed, for a register and a code in their ranges.
pub note_event-IsTable :
    (input_ev_key : ℕ) (event : InputEvent) (slots : List ℕ)
    → IsKey (record { reg = event.reg; code = event.code })
    → IsTable slots
    → IsTable (note_event input_ev_key event slots)
unfolding note_event held_entry_add
note_event-IsTable input_ev_key event slots w v =
    let entry = held_entry_pack (record { reg = event.reg; code = event.code }) in
    if_either IsTable (not (event.type == input_ev_key)) v (
      if_either IsTable (not (is_zero event.value))
        (if_split IsTable (has_entry entry slots) (λ _. v)
          (λ absent. record {
            words = take_free-words entry slots (packed_word _ w) v.words;
            unique = take_free-IsUnique entry slots absent v.unique;
          }))
        (record {
          words = remove-words entry slots v.words;
          unique = remove-IsUnique entry slots v.unique;
        }))
