-- ===== src/PeripheralInput/Link.antt =====
-- src/peripheral_input.c, src/esb_keepalive.c and src/central_input.c together: the keys that a
-- peripheral holds, through its keepalive, in the central's table.
use zmk_feature_split_esb.ByteOrder.{ByteOrder}
use mathlib.Core.Path.{ap₂}
use zmk_feature_split_esb.Prelude.{
  ℕ, suc, ◌+◌, ◌^◌, ◌≤◌, ◌<◌, ◌≡◌, refl, sym, ◌∙◌, ap, ◌⊎◌, inl, inr, Bool, true, false, not, ◌==◌,
  if◌then◌else◌, List, [], ◌∷◌, length, get_or, All, arith, if_true, if_false,
}
use zmk_feature_split_esb.Keepalive.Codec.{Snapshot, HeldKey, held_count_of, held_key_at}
use zmk_feature_split_esb.Keepalive.Codec.RoundTrip.{IsFilled, Reads}
use zmk_feature_split_esb.CentralInput.State.{Pipe, input_keys_equal, tracks_key}
use zmk_feature_split_esb.CentralInput.Reconcile.{
  holds_from, keepalive_holds_input_key, reconcile_keys,
}
use zmk_feature_split_esb.CentralInput.Laws.{IsFull}
use zmk_feature_split_esb.CentralInput.Agree.{reconcile_keys-agrees}
use zmk_feature_split_esb.PeripheralInput.{
  held_entry_valid, held_entry_pack, held_entry_unpack, has_entry, held_keys,
}

-- A slot is free or holds the word of a key.
abbrev pub IsEntry : ℕ → Type 0
IsEntry entry = (entry ≡ 0) ⊎ ((held_entry_valid ≤ entry) × (entry < 2 ^ 25))

pub record IsKey (k : HeldKey) : Type 0 where
  pub reg : k.reg < 256
  pub code : k.code < 2 ^ 16

lists_key : HeldKey → List HeldKey → Bool
lists_key k [] = false
lists_key k (key ∷ keys) = if input_keys_equal key k then true else lists_key k keys

pub unpacked :
    (entry : ℕ) (k : HeldKey)
    → held_entry_valid ≤ entry
    → entry < 2 ^ 25
    → IsKey k
    → input_keys_equal (held_entry_unpack entry) k ≡ (entry == held_entry_pack k)
unfolding input_keys_equal held_entry_unpack held_entry_pack
unpacked entry k h l v = ground (arith, v.reg, v.code)

free : (slot : ℕ) → slot ≡ 0 → not (slot == 0) ≡ false
free slot h = ground (arith, h)

used : (slot : ℕ) → held_entry_valid ≤ slot → not (slot == 0) ≡ true
used slot h = ground (arith, h)

other : (slot entry : ℕ) → slot ≡ 0 → held_entry_valid ≤ entry → (slot == entry) ≡ false
other slot entry h l = ground (arith, h, l)

pack-pos : (k : HeldKey) → held_entry_valid ≤ held_entry_pack k
unfolding held_entry_pack
pack-pos k = omega arith

lists_key-held_keys :
    (k : HeldKey) (slots : List ℕ)
    → IsKey k
    → All IsEntry slots
    → lists_key k (held_keys slots) ≡ has_entry (held_entry_pack k) slots
unfolding lists_key held_keys has_entry
lists_key-held_keys k [] v vs = refl
lists_key-held_keys k (slot ∷ slots) v (inl z, vs) =
    ap (lists_key k) (if_false _ _ (free slot z))
    ∙ (lists_key-held_keys k slots v vs
        ∙ sym (if_false _ _ (other slot (held_entry_pack k) z (pack-pos k))))
lists_key-held_keys k (slot ∷ slots) v (inr (h, l), vs) =
    ap (lists_key k) (if_true _ _ (used slot h))
    ∙ ap₂ (λ (b c : Bool). if b then true else c) (unpacked slot k h l v)
        (lists_key-held_keys k slots v vs)

module _ (order : ByteOrder) (ev_key ev_rel : ℕ) (s : Snapshot) (packet : List ℕ)
    (r : Reads order s packet) (k : HeldKey) where
  holds_from-lists_key :
      (keys : List HeldKey) (index : ℕ)
      → ((i : ℕ)
          → i < length keys
          → held_key_at order packet (index + i) ≡ get_or keys i (record { reg = 0; code = 0 }))
      → holds_from order ev_key ev_rel packet (length keys) index k ≡ lists_key k keys
  unfolding holds_from lists_key
  holds_from-lists_key [] index h = refl
  holds_from-lists_key (key ∷ keys) index h =
      ap₂ (λ (j : HeldKey) (b : Bool). if input_keys_equal j k then true else b)
        (ap (held_key_at order packet) (omega arith) ∙ h 0 (omega arith))
        (holds_from-lists_key keys (suc index)
          (λ i l. ap (held_key_at order packet) (omega arith) ∙ h (suc i) (omega (arith, l))))

  -- A keepalive that was filled from a peripheral's table of held keys, and read back as it was
  -- encoded, leaves the central tracking a key just if the peripheral holds it; only where the
  -- central has no free slot may a held key be missing.
  pub reconcile_keys-held_keys :
      (slots : List ℕ) (p : Pipe)
      → s.held_keys ≡ held_keys slots
      → IsFilled s
      → All IsEntry slots
      → IsKey k
      → (tracks_key k (reconcile_keys order ev_key ev_rel packet p).1.keys
          ≡ has_entry (held_entry_pack k) slots)
        ⊎ (IsFull (reconcile_keys order ev_key ev_rel packet p).1.keys
            × (has_entry (held_entry_pack k) slots ≡ true)
            × (tracks_key k (reconcile_keys order ev_key ev_rel packet p).1.keys ≡ false))
  unfolding keepalive_holds_input_key
  reconcile_keys-held_keys slots p same filled valid key =
      let count : held_count_of packet ≡ length s.held_keys = r.held_count ∙ sym filled.held in
      let holds : keepalive_holds_input_key order ev_key ev_rel packet k
          ≡ has_entry (held_entry_pack k) slots =
        ap (λ n. holds_from order ev_key ev_rel packet n 0 k) count
        ∙ (holds_from-lists_key s.held_keys 0 (λ i l.
              ap (held_key_at order packet) (omega arith)
              ∙ r.held_keys i (omega (arith, l, filled.held)))
            ∙ (ap (lists_key k) same ∙ lists_key-held_keys k slots key valid)) in
      elim (reconcile_keys-agrees order ev_key ev_rel packet k p) [
        | inl e ↦ inl (e ∙ holds)
        | inr (full, h, e) ↦ inr (full, sym holds ∙ h, e)
      ]
