-- ===== src/CentralInput/Laws.antt =====
-- src/central_input.c: how the table of held keys answers after it is written.
use zmk_feature_split_esb.Prelude.{
  ℕ, ◌≡◌, refl, ap, true, ◌||◌, not, Option, none, some, List, [], ◌∷◌, All, arith, if_either,
  if_split,
}
use mathlib.Core.Path.{ap₂}
use mathlib.Core.Option.{map as map_option}
use zmk_feature_split_esb.Keepalive.Codec.{HeldKey}
use zmk_feature_split_esb.CentralInput.State.{
  TrackedKey, input_keys_equal, is_held_as, Pipe, tracks_key, track_input_key, note_input_reg,
}

pub input_keys_equal_iff : (a b : HeldKey) → input_keys_equal a b ≡ true → a ≡ b
unfolding input_keys_equal
input_keys_equal_iff a b h =
    let r : a.reg ≡ b.reg = ground arith in
    let c : a.code ≡ b.code = ground arith in
    ap₂ (λ (reg code : ℕ). record { reg = reg; code = code }) r c

pub input_keys_equal_refl : (a : HeldKey) → input_keys_equal a a ≡ true
unfolding input_keys_equal
input_keys_equal_refl a = ground arith

pub input_keys_equal_sym : (a b : HeldKey) → input_keys_equal a b ≡ input_keys_equal b a
unfolding input_keys_equal
input_keys_equal_sym a b = ground arith

-- No slot of the table is free.
abbrev pub IsFull : List TrackedKey → Type 0
IsFull keys = All (λ slot. slot.held ≡ true) keys

-- What `track_input_key` does: without a free slot nothing, else the key is tracked beside the rest.
abbrev pub IsTracking : HeldKey → List TrackedKey → Option (List TrackedKey) → Type 0
IsTracking key keys none = IsFull keys
IsTracking key keys (some tracked) =
    (j : HeldKey) → tracks_key j tracked ≡ (input_keys_equal key j || tracks_key j keys)

or_of :
    (slot : TrackedKey) (key j : HeldKey) (keys tracked : List TrackedKey)
    → tracks_key j tracked ≡ (input_keys_equal key j || tracks_key j keys)
    → tracks_key j (slot ∷ tracked) ≡ (input_keys_equal key j || tracks_key j (slot ∷ keys))
unfolding tracks_key
or_of slot key j keys tracked e = ground (arith, e)

past_slot :
    (key : HeldKey) (slot : TrackedKey) (slots : List TrackedKey) (o : Option (List TrackedKey))
    → slot.held ≡ true
    → IsTracking key slots o
    → IsTracking key (slot ∷ slots) (map_option (λ tracked. slot ∷ tracked) o)
past_slot key slot slots none h t = (h, t)
past_slot key slot slots (some tracked) h t = λ j. or_of slot key j slots tracked (t j)

into_slot :
    (key j : HeldKey) (slot : TrackedKey) (slots : List TrackedKey)
    → not slot.held ≡ true
    → tracks_key j (record { held = true; key = key } ∷ slots)
      ≡ (input_keys_equal key j || tracks_key j (slot ∷ slots))
unfolding tracks_key is_held_as
into_slot key j slot slots h = ground arith

pub track_input_key-IsTracking :
    (key : HeldKey) (keys : List TrackedKey) → IsTracking key keys (track_input_key key keys)
unfolding track_input_key
track_input_key-IsTracking key [] = tt
track_input_key-IsTracking key (slot ∷ slots) =
    if_split (IsTracking key (slot ∷ slots)) (not slot.held) (λ h j. into_slot key j slot slots h)
      (λ h.
        past_slot key slot slots (track_input_key key slots) (ground arith)
          (track_input_key-IsTracking key slots))

pub track_input_key-full :
    (key : HeldKey) (keys : List TrackedKey) → IsFull keys → track_input_key key keys ≡ none
unfolding track_input_key
track_input_key-full key [] h = refl
track_input_key-full key (slot ∷ slots) (held, rest) =
    if_split (λ (o : Option (List TrackedKey)). o ≡ none) (not slot.held)
      (λ e. absurd (ground (arith, held, e)))
      (λ e. ap (map_option (λ tracked. slot ∷ tracked)) (track_input_key-full key slots rest))

pub same_tracks :
    (key k : HeldKey) (keys : List TrackedKey)
    → input_keys_equal key k ≡ true
    → tracks_key key keys ≡ tracks_key k keys
same_tracks key k keys h = ap (λ j. tracks_key j keys) (input_keys_equal_iff key k h)

pub note_input_reg-keys : (reg : ℕ) (p : Pipe) → (note_input_reg reg p).keys ≡ p.keys
unfolding note_input_reg
note_input_reg-keys reg p = if_either (λ (q : Pipe). q.keys ≡ p.keys) _ refl refl
