-- ===== src/CentralInput/Distinct/Reconcile.antt =====
-- src/central_input.c: a keepalive, and a reset, leave no key in two slots.
use zmk_feature_split_esb.ByteOrder.{ByteOrder}
use mathlib.Core.Path.{subst}
use zmk_feature_split_esb.Prelude.{
  ℕ, zero, suc, sym, false, ◌||◌, not, Option, none, some, List, [], ◌∷◌, map, arith, if_either,
  if_split,
}
use zmk_feature_split_esb.Keepalive.Codec.{HeldKey, held_count_of, held_key_at}
use zmk_feature_split_esb.CentralInput.State.{
  InputEvent, TrackedKey, Pipe, tracks_key, apply_input_reset,
}
use zmk_feature_split_esb.CentralInput.Reconcile.{
  keepalive_holds_input_key, release_unheld_input_keys, press_tracked, press_key, press_from,
  reconcile_keys,
}
use zmk_feature_split_esb.CentralInput.Laws.{note_input_reg-keys}
use zmk_feature_split_esb.CentralInput.Told.{released}
use zmk_feature_split_esb.CentralInput.Distinct.{
  IsDistinct, DistinctTable, track_input_key-DistinctTable,
}

reset-IsDistinct :
    (keys : List TrackedKey)
    → IsDistinct (map (λ (slot : TrackedKey). record slot { held = false }) keys)
reset-IsDistinct [] = tt
reset-IsDistinct (slot ∷ slots) = (λ e. absurd (ground (arith, e)), reset-IsDistinct slots)

pub apply_input_reset-IsDistinct :
    (p : Pipe) → IsDistinct p.keys → IsDistinct (apply_input_reset p).keys
unfolding apply_input_reset
apply_input_reset-IsDistinct p d =
    if_either (λ (q : Pipe). IsDistinct q.keys) (not p.reset_wanted) d (reset-IsDistinct p.keys)

module _ (order : ByteOrder) (ev_key ev_rel : ℕ) (keepalive : List ℕ) where
  released-IsDistinct :
      (keys : List TrackedKey)
      → IsDistinct keys
      → IsDistinct (release_unheld_input_keys order ev_key ev_rel keepalive keys).1
  unfolding release_unheld_input_keys
  released-IsDistinct [] d = tt
  released-IsDistinct (slot ∷ slots) (apart, d) =
      let rest = released-IsDistinct slots d in
      if_either (λ (r : List InputEvent × List TrackedKey). IsDistinct r.1)
        (not slot.held || keepalive_holds_input_key order ev_key ev_rel keepalive slot.key)
        (λ e. ground (arith, released order ev_key ev_rel keepalive slot.key slots, apart e), rest)
        (λ e. absurd (ground (arith, e)), rest)

  press_tracked-IsDistinct :
      (key : HeldKey) (p : Pipe) (o : Option (List TrackedKey))
      → IsDistinct p.keys
      → DistinctTable o
      → IsDistinct (press_tracked order ev_key ev_rel key p o).1.keys
  unfolding press_tracked
  press_tracked-IsDistinct key p none d t = d
  press_tracked-IsDistinct key p (some keys) d t =
      subst IsDistinct (sym (note_input_reg-keys key.reg (record p { keys = keys }))) t

  press_from-IsDistinct :
      (n index : ℕ) (p : Pipe)
      → IsDistinct p.keys
      → IsDistinct (press_from order ev_key ev_rel keepalive n index p).1.keys
  unfolding press_from press_key
  press_from-IsDistinct zero index p d = d
  press_from-IsDistinct (suc n) index p d =
      let key = held_key_at order keepalive index in
      press_from-IsDistinct n (suc index) _ (
        if_split (λ (r : List InputEvent × Pipe). IsDistinct r.1.keys) (tracks_key key p.keys)
          (λ h. d)
          (λ h. press_tracked-IsDistinct key p _ d (track_input_key-DistinctTable key p.keys h d)))

  pub reconcile_keys-IsDistinct :
      (p : Pipe)
      → IsDistinct p.keys
      → IsDistinct (reconcile_keys order ev_key ev_rel keepalive p).1.keys
  unfolding reconcile_keys
  reconcile_keys-IsDistinct pipe d =
      let p = apply_input_reset pipe in
      press_from-IsDistinct (held_count_of keepalive) 0
        (record p { keys = (release_unheld_input_keys order ev_key ev_rel keepalive p.keys).1 })
        (released-IsDistinct p.keys (apply_input_reset-IsDistinct pipe d))
