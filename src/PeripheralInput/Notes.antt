-- ===== src/PeripheralInput/Notes.antt =====
-- src/peripheral_input.c: what noting an event does to the table of held keys.
use zmk_feature_split_esb.Prelude.{
  ℕ, ◌≡◌, ◌≢◌, refl, sym, ◌∙◌, ap, ◌⊎◌, inl, inr, Bool, true, false, ◌&&◌, ◌||◌, not, ◌==◌,
  if◌then◌else◌, List, [], ◌∷◌, arith, Bool-cases, if_split, ℕ_discrete,
}
use zmk_feature_split_esb.Keepalive.Codec.{HeldKey}
use zmk_feature_split_esb.CentralInput.State.{InputEvent, input_keys_equal}
use zmk_feature_split_esb.CentralInput.Deliver.{is_zero}
use zmk_feature_split_esb.CentralInput.Laws.{input_keys_equal_iff}
use zmk_feature_split_esb.PeripheralInput.{
  held_entry_pack, has_entry, take_free, held_entry_add, held_entry_remove, note_event,
}
use zmk_feature_split_esb.PeripheralInput.Link.{IsKey}

-- No key stands in two slots.
abbrev pub IsUnique : List ℕ → Type 0
IsUnique [] = Unit
IsUnique (slot ∷ slots) = (slot ≢ 0 → has_entry slot slots ≡ false) × IsUnique slots

has_entry-take_free :
    (entry j : ℕ) (slots : List ℕ)
    → j ≢ 0
    → has_entry 0 slots ≡ true
    → has_entry j (take_free entry slots) ≡ (entry == j || has_entry j slots)
unfolding has_entry take_free
has_entry-take_free entry j [] h z = absurd (ground (arith, z))
has_entry-take_free entry j (slot ∷ slots) h z =
    if_split (λ (table : List ℕ). has_entry j table ≡ (entry == j || has_entry j (slot ∷ slots)))
      (slot == 0) (λ e. ground (arith, e, h))
      (λ e. ground (arith, e, has_entry-take_free entry j slots h (ground (arith, e, z))))

has_entry-held_entry_remove :
    (entry j : ℕ) (slots : List ℕ)
    → entry ≢ 0
    → j ≢ 0
    → IsUnique slots
    → has_entry j (held_entry_remove entry slots) ≡ (has_entry j slots && not (entry == j))
unfolding has_entry held_entry_remove
has_entry-held_entry_remove entry j [] n h d = refl
has_entry-held_entry_remove entry j (slot ∷ slots) n h (apart, d) =
    if_split
      (λ (table : List ℕ). has_entry j table ≡ (has_entry j (slot ∷ slots) && not (entry == j)))
      (slot == entry)
      (λ e.
        let here : slot ≡ entry = ground (arith, e) in
        let gone : j ≡ slot → has_entry j slots ≡ false =
          λ q. ap (λ i. has_entry i slots) q ∙ apart (λ zero_slot. n (sym here ∙ zero_slot)) in
        elim (ℕ_discrete j slot) [
          | yes q ↦ ground (arith, gone q, q, here, h)
          | no q ↦ ground (arith, q, here, h)
        ])
      (λ e. ground (arith, e, has_entry-held_entry_remove entry j slots n h d))

packed :
    (a b : HeldKey)
    → IsKey a
    → IsKey b
    → (held_entry_pack a == held_entry_pack b) ≡ input_keys_equal a b
unfolding held_entry_pack input_keys_equal
packed a b v w = ground (arith, v.reg, v.code, w.reg, w.code)

pack-pos : (k : HeldKey) → held_entry_pack k ≢ 0
unfolding held_entry_pack
pack-pos k e = omega (arith, e)

-- What an event of the key leaves of `k`: the key's new state, and the others as they were.
IsNotedAs : HeldKey → HeldKey → Bool → List ℕ → List ℕ → Type 0
IsNotedAs k key pressed slots after =
    has_entry (held_entry_pack k) after
    ≡ (if input_keys_equal key k then pressed else has_entry (held_entry_pack k) slots)

held_entry_add-IsNotedAs :
    (k key : HeldKey) (slots : List ℕ)
    → IsKey k
    → IsKey key
    → has_entry 0 slots ≡ true
    → IsNotedAs k key true slots (held_entry_add (held_entry_pack key) slots)
unfolding held_entry_add IsNotedAs
held_entry_add-IsNotedAs k key slots v w room =
    let same = packed key k w v in
    if_split (IsNotedAs k key true slots) (has_entry (held_entry_pack key) slots)
      (λ e.
        let carried = λ (h : input_keys_equal key k ≡ true).
          ap (λ j. has_entry (held_entry_pack j) slots) (input_keys_equal_iff key k h) in
        ground (arith, e, carried))
      (λ e.
        has_entry-take_free (held_entry_pack key) (held_entry_pack k) slots (pack-pos k) room
        ∙ ground (arith, same))

held_entry_remove-IsNotedAs :
    (k key : HeldKey) (slots : List ℕ)
    → IsKey k
    → IsKey key
    → IsUnique slots
    → IsNotedAs k key false slots (held_entry_remove (held_entry_pack key) slots)
unfolding IsNotedAs
held_entry_remove-IsNotedAs k key slots v w d =
    has_entry-held_entry_remove (held_entry_pack key) (held_entry_pack k) slots (pack-pos key)
      (pack-pos k) d
    ∙ ground (arith, packed key k w v)

-- A key event, of a key in the ranges of its fields, on a table where no key stands twice: the table
-- holds that key just if it was pressed and every other key as before, unless the key was pressed
-- with no slot free.
pub note_event-has_entry :
    (input_ev_key : ℕ) (event : InputEvent) (slots : List ℕ) (k : HeldKey)
    → event.type ≡ input_ev_key
    → IsKey k
    → IsKey (record { reg = event.reg; code = event.code })
    → IsUnique slots
    → (has_entry (held_entry_pack k) (note_event input_ev_key event slots) ≡ (
        if input_keys_equal (record { reg = event.reg; code = event.code }) k
        then not (is_zero event.value)
        else has_entry (held_entry_pack k) slots))
      ⊎ ((is_zero event.value ≡ false) × (has_entry 0 slots ≡ false))
unfolding note_event IsNotedAs
note_event-has_entry input_ev_key event slots k is_key v w d =
    let key : HeldKey = record { reg = event.reg; code = event.code } in
    let Noted = λ (table : List ℕ).
      (has_entry (held_entry_pack k) table ≡ (
        if input_keys_equal key k
        then not (is_zero event.value)
        else has_entry (held_entry_pack k) slots))
      ⊎ ((is_zero event.value ≡ false) × (has_entry 0 slots ≡ false)) in
    if_split Noted (not (event.type == input_ev_key)) (λ e. absurd (ground (arith, e, is_key)))
      (λ _.
        if_split Noted (not (is_zero event.value))
          (λ pressed. elim (Bool-cases (has_entry 0 slots)) [
            | inl room ↦ inl (
                held_entry_add-IsNotedAs k key slots v w room
                ∙ as_told (input_keys_equal key k) _ _ _ (sym pressed))
            | inr full ↦ inr (not_true (is_zero event.value) pressed, full)
          ])
          (λ freed. inl (
            held_entry_remove-IsNotedAs k key slots v w d
            ∙ as_told (input_keys_equal key k) _ _ _ (sym freed))))
  where
    as_told :
        (same a b rest : Bool) → a ≡ b → (if same then a else rest) ≡ (if same then b else rest)
    as_told same a b rest h = ap (λ t. if same then t else rest) h

    not_true : (b : Bool) → not b ≡ true → b ≡ false
    not_true b h = ground arith
