-- ===== src/CentralInput/Told.antt =====
-- src/central_input.c: what ZMK was told of a key agrees with the table of held keys.
pub mod Motion
pub mod Deliver
use zmk_feature_split_esb.ByteOrder.{ByteOrder}
use mathlib.Core.Path.{subst}
use mathlib.Core.Option.{map as map_option}
use zmk_feature_split_esb.Prelude.{
  ℕ, zero, suc, ◌+◌, ◌<◌, ◌≡◌, ◌≢◌, refl, sym, ◌∙◌, ap, ◌⊎◌, inl, inr, Bool, true, false, ◌&&◌,
  ◌||◌, not, ◌==◌, if◌then◌else◌, Option, none, some, List, [], ◌∷◌, ◌++◌, All, arith, Bool-cases,
  Option-cases, if_either, if_split,
}
use zmk_feature_split_esb.Prelude.Int.{ℤ, pos}
use zmk_feature_split_esb.Keepalive.Codec.{HeldKey, held_count_of, held_key_at}
use zmk_feature_split_esb.CentralInput.State.{
  InputEvent, TrackedKey, Pipe, input_keys_equal, is_held_as, tracks_key, track_input_key,
  apply_input_reset, note_input_reg,
}
use zmk_feature_split_esb.CentralInput.Deliver.{is_zero}
use zmk_feature_split_esb.CentralInput.Reconcile.{
  replay_input_key, holds_from, keepalive_holds_input_key, release_unheld_input_keys, press_tracked,
  press_key, press_from, reconcile_keys, reconcile, heal_from, heal_lost_motion, deliver_heal,
}
use zmk_feature_split_esb.CentralInput.Laws.{
  IsFull, IsTracking, input_keys_equal_iff, input_keys_equal_refl, track_input_key-IsTracking,
  note_input_reg-keys,
}

-- Whether ZMK has the key pressed after these events, when it had it `before`.
unfoldable pub told_after : ℕ → HeldKey → List InputEvent → Bool → Bool
unfolding input_keys_equal
told_after input_ev_key k [] before = before
told_after input_ev_key k (e ∷ es) before = told_after input_ev_key k es (
    if e.type == input_ev_key && input_keys_equal (record { reg = e.reg; code = e.code }) k
    then not (is_zero e.value)
    else before)

pub told_after-append :
    (ev : ℕ) (k : HeldKey) (es fs : List InputEvent) (before : Bool)
    → told_after ev k (es ++ fs) before ≡ told_after ev k fs (told_after ev k es before)
unfolding told_after
told_after-append ev k [] fs before = refl
told_after-append ev k (e ∷ es) fs before = told_after-append ev k es fs _

module _ (order : ByteOrder) (ev_key ev_rel : ℕ) (keepalive : List ℕ) (k : HeldKey) where
  -- A replayed event tells the key's new state, and nothing of the others.
  told_after-replay :
      (key : HeldKey) (pressed before : Bool) (es : List InputEvent)
      → told_after ev_key k (replay_input_key order ev_key ev_rel key pressed ∷ es) before
        ≡ told_after ev_key k es (if input_keys_equal key k then pressed else before)
  unfolding told_after replay_input_key
  told_after-replay key true before es = ground arith
  told_after-replay key false before es = ground arith

  same_hold :
      (key : HeldKey)
      → input_keys_equal key k ≡ true
      → keepalive_holds_input_key order ev_key ev_rel keepalive key
        ≡ keepalive_holds_input_key order ev_key ev_rel keepalive k
  same_hold key h =
      ap (keepalive_holds_input_key order ev_key ev_rel keepalive) (input_keys_equal_iff key k h)

  -- The events of the releases, and the table that they leave.
  pub released :
      (keys : List TrackedKey)
      → tracks_key k (release_unheld_input_keys order ev_key ev_rel keepalive keys).1
        ≡ (tracks_key k keys && keepalive_holds_input_key order ev_key ev_rel keepalive k)
  unfolding tracks_key release_unheld_input_keys is_held_as
  released [] = refl
  released (slot ∷ slots) =
      elim (Bool-cases
        (not slot.held || keepalive_holds_input_key order ev_key ev_rel keepalive slot.key)) [
          | inl e ↦ rw (e) (ground (arith, released slots, same_hold slot.key, e))
          | inr e ↦ rw (e) (ground (arith, released slots, same_hold slot.key, e))
        ]

  told_after-released :
      (keys : List TrackedKey) (before : Bool)
      → told_after ev_key k (release_unheld_input_keys order ev_key ev_rel keepalive keys).0 before
        ≡ (if tracks_key k keys && not (keepalive_holds_input_key order ev_key ev_rel keepalive k)
            then false
            else before)
  unfolding tracks_key release_unheld_input_keys is_held_as told_after
  told_after-released [] before = refl
  told_after-released (slot ∷ slots) before =
      elim (Bool-cases
        (not slot.held || keepalive_holds_input_key order ev_key ev_rel keepalive slot.key)) [
          | inl e ↦ rw (e) (ground (arith, told_after-released slots before, same_hold slot.key, e))
          | inr e ↦ rw (e) (
              told_after-replay slot.key false before
                (release_unheld_input_keys order ev_key ev_rel keepalive slots).0
              ∙ (told_after-released slots (if input_keys_equal slot.key k then false else before)
                  ∙ (ground (arith, same_hold slot.key, e))))
        ]

  -- What a round of presses does to the table is what it tells.
  unfoldable pub IsTold : Pipe → List InputEvent × Pipe → Type 0
  unfolding told_after
  IsTold p r = tracks_key k r.1.keys ≡ told_after ev_key k r.0 (tracks_key k p.keys)

  press_tracked-IsTold :
      (key : HeldKey) (p : Pipe) (o : Option (List TrackedKey))
      → IsTracking key p.keys o
      → IsTold p (press_tracked order ev_key ev_rel key p o)
  unfolding press_tracked IsTold told_after
  press_tracked-IsTold key p none t = refl
  press_tracked-IsTold key p (some keys) t =
      ap (tracks_key k) (note_input_reg-keys key.reg (record p { keys = keys }))
      ∙ (t k
          ∙ (sort (input_keys_equal key k) _
              ∙ sym (told_after-replay key true (tracks_key k p.keys) [])))
    where
      sort : (a b : Bool) → (a || b) ≡ (if a then true else b)
      sort true b = refl
      sort false b = refl

  press_key-IsTold : (key : HeldKey) (p : Pipe) → IsTold p (press_key order ev_key ev_rel key p)
  unfolding press_key IsTold told_after
  press_key-IsTold key p = if_either (IsTold p) (tracks_key key p.keys) refl (
      press_tracked-IsTold key p (track_input_key key p.keys)
        (track_input_key-IsTracking key p.keys))

  press_from-IsTold :
      (n index : ℕ) (p : Pipe) → IsTold p (press_from order ev_key ev_rel keepalive n index p)
  unfolding press_from IsTold told_after
  press_from-IsTold zero index p = refl
  press_from-IsTold (suc n) index p =
      let key = held_key_at order keepalive index in
      let pressed = press_key order ev_key ev_rel key p in
      press_from-IsTold n (suc index) pressed.1
      ∙ (ap
            (told_after ev_key k
              (press_from order ev_key ev_rel keepalive n (suc index) pressed.1).0)
            (press_key-IsTold key p)
          ∙ sym (told_after-append ev_key k pressed.0 _ _))

  pub reconcile_keys-IsTold :
      (p : Pipe) → IsTold (apply_input_reset p) (reconcile_keys order ev_key ev_rel keepalive p)
  unfolding reconcile_keys IsTold
  reconcile_keys-IsTold pipe =
      let p = apply_input_reset pipe in
      let gone = release_unheld_input_keys order ev_key ev_rel keepalive p.keys in
      let rest : Pipe = record p { keys = gone.1 } in
      press_from-IsTold (held_count_of keepalive) 0 rest
      ∙ (ap
            (told_after ev_key k
              (press_from order ev_key ev_rel keepalive (held_count_of keepalive) 0 rest).0)
            (released p.keys
              ∙ (kept (tracks_key k p.keys) _
                  ∙ sym (told_after-released p.keys (tracks_key k p.keys))))
          ∙ sym (told_after-append ev_key k gone.0 _ _))
    where
      kept : (a b : Bool) → (a && b) ≡ (if a && not b then false else a)
      kept a b = ground arith
