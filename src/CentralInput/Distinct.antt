-- ===== src/CentralInput/Distinct.antt =====
-- src/central_input.c: no key stands in two slots.
pub mod Reconcile
use mathlib.Core.Option.{map as map_option}
use mathlib.Core.Path.{subst}
use zmk_feature_split_esb.Prelude.{
  ℕ, zero, suc, ◌≡◌, refl, sym, ◌∙◌, ap, ◌⊎◌, inl, inr, Bool, true, false, ◌&&◌, ◌||◌, not, ◌==◌,
  if◌then◌else◌, Option, none, some, List, [], ◌∷◌, map, arith, Bool-cases, if_either, if_split,
}
use zmk_feature_split_esb.Keepalive.Codec.{HeldKey}
use zmk_feature_split_esb.CentralInput.State.{
  TrackedKey, Pipe, input_keys_equal, is_held_as, tracks_key, track_input_key, untrack_input_key,
}
use zmk_feature_split_esb.CentralInput.Deliver.{keys_or, note_key}
use zmk_feature_split_esb.CentralInput.Laws.{
  IsTracking, same_tracks, track_input_key-IsTracking, input_keys_equal_iff, input_keys_equal_sym,
}

abbrev pub IsDistinct : List TrackedKey → Type 0
IsDistinct [] = Unit
IsDistinct (slot ∷ slots) =
    (slot.held ≡ true → tracks_key slot.key slots ≡ false) × IsDistinct slots

-- Of a table without the key twice, a release leaves all but that key.
pub tracks_key-untrack_input_key :
    (key j : HeldKey) (keys : List TrackedKey)
    → IsDistinct keys
    → tracks_key j (untrack_input_key key keys)
      ≡ (tracks_key j keys && not (input_keys_equal key j))
unfolding tracks_key untrack_input_key is_held_as
tracks_key-untrack_input_key key j [] d = refl
tracks_key-untrack_input_key key j (slot ∷ slots) (apart, d) =
    elim (Bool-cases (is_held_as key slot)) [
      | inl e ↦
          let here : slot.held ≡ true = ground arith in
          let same : input_keys_equal slot.key key ≡ true = ground arith in
          let as_key =
            ap (λ (i : HeldKey). input_keys_equal i j) (input_keys_equal_iff slot.key key same) in
          let none_left : tracks_key key slots ≡ false =
            sym (same_tracks slot.key key slots same) ∙ apart here in
          rw (e) (ground (arith, here, as_key, none_left, same_tracks key j slots))
      | inr e ↦
          let as_j = λ (h : input_keys_equal key j ≡ true).
            ap (input_keys_equal slot.key) (input_keys_equal_iff key j h) in
          rw (e) (ground (arith, e, as_j, tracks_key-untrack_input_key key j slots d))
    ]

pub untrack_input_key-IsDistinct :
    (key : HeldKey) (keys : List TrackedKey)
    → IsDistinct keys
    → IsDistinct (untrack_input_key key keys)
unfolding untrack_input_key
untrack_input_key-IsDistinct key [] d = tt
untrack_input_key-IsDistinct key (slot ∷ slots) (apart, d) =
    if_either IsDistinct (is_held_as key slot) (λ e. absurd (ground (arith, e)), d)
      (
        λ e. ground (arith, tracks_key-untrack_input_key key slot.key slots d, apart e),
        untrack_input_key-IsDistinct key slots d,
      )

abbrev pub DistinctTable : Option (List TrackedKey) → Type 0
DistinctTable none = Unit
DistinctTable (some keys) = IsDistinct keys

past_slot :
    (key : HeldKey) (slot : TrackedKey) (slots : List TrackedKey) (o : Option (List TrackedKey))
    → tracks_key slot.key slots ≡ false
    → input_keys_equal key slot.key ≡ false
    → IsTracking key slots o
    → DistinctTable o
    → DistinctTable (map_option (λ tracked. slot ∷ tracked) o)
past_slot key slot slots none h n t d = tt
past_slot key slot slots (some tracked) h n t d = (λ e. t slot.key ∙ ground (arith, h, n), d)

pub track_input_key-DistinctTable :
    (key : HeldKey) (keys : List TrackedKey)
    → tracks_key key keys ≡ false
    → IsDistinct keys
    → DistinctTable (track_input_key key keys)
unfolding track_input_key tracks_key is_held_as
track_input_key-DistinctTable key [] h d = tt
track_input_key-DistinctTable key (slot ∷ slots) h (apart, d) =
    let free : tracks_key key slots ≡ false = ground arith in
    if_split DistinctTable (not slot.held) (λ e. ((λ f. free), d))
      (λ e.
        let here : slot.held ≡ true = ground arith in
        let other : input_keys_equal key slot.key ≡ false =
          ground (arith, h, here, input_keys_equal_sym key slot.key) in
        past_slot key slot slots (track_input_key key slots) (apart here) other
          (track_input_key-IsTracking key slots) (track_input_key-DistinctTable key slots free d))

keys_or-IsDistinct :
    (keys : List TrackedKey) (o : Option (List TrackedKey))
    → IsDistinct keys
    → DistinctTable o
    → IsDistinct (keys_or keys o)
keys_or-IsDistinct keys none d e = d
keys_or-IsDistinct keys (some tracked) d e = e

pub note_key-IsDistinct :
    (key : HeldKey) (pressed : Bool) (keys : List TrackedKey)
    → (pressed && tracks_key key keys) ≡ false
    → IsDistinct keys
    → IsDistinct (note_key key pressed keys)
unfolding note_key
note_key-IsDistinct key pressed keys h d =
    if_split IsDistinct (not pressed) (λ e. untrack_input_key-IsDistinct key keys d)
      (λ e.
        keys_or-IsDistinct keys _ d
          (track_input_key-DistinctTable key keys (ground (arith, h, e)) d))
