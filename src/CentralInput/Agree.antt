-- ===== src/CentralInput/Agree.antt =====
-- src/central_input.c: after a keepalive the table of held keys is the keepalive's.
use zmk_feature_split_esb.ByteOrder.{ByteOrder}
use mathlib.Core.Path.{subst}
use zmk_feature_split_esb.Prelude.{
  ℕ, zero, suc, ◌≡◌, refl, sym, ◌∙◌, ap, ◌⊎◌, inl, inr, Bool, true, false, ◌||◌, if◌then◌else◌,
  Option, none, some, List, arith, Bool-cases, if_either, if_split,
}
use zmk_feature_split_esb.Keepalive.Codec.{HeldKey, held_count_of, held_key_at}
use zmk_feature_split_esb.CentralInput.State.{
  InputEvent, TrackedKey, Pipe, input_keys_equal, tracks_key, apply_input_reset,
}
use zmk_feature_split_esb.CentralInput.Reconcile.{
  holds_from, keepalive_holds_input_key, release_unheld_input_keys, press_tracked, press_key,
  press_from, reconcile_keys,
}
use zmk_feature_split_esb.CentralInput.Laws.{
  IsFull, IsTracking, track_input_key-IsTracking, track_input_key-full, same_tracks,
  note_input_reg-keys,
}
use zmk_feature_split_esb.CentralInput.Told.{released}

module _ (order : ByteOrder) (ev_key ev_rel : ℕ) (keepalive : List ℕ) (k : HeldKey) where
  -- What the presses of the keys that `held` says do to the table: `k` is tracked when it was or is
  -- held, unless the table is full.
  HasPressed : Bool → List TrackedKey → List TrackedKey → Type 0
  HasPressed held before after =
      (tracks_key k after ≡ (held || tracks_key k before))
      ⊎ (IsFull after × (held ≡ true) × (tracks_key k after ≡ false))

  press_tracked-HasPressed :
      (key : HeldKey) (p : Pipe) (o : Option (List TrackedKey))
      → tracks_key key p.keys ≡ false
      → IsTracking key p.keys o
      → HasPressed
          (input_keys_equal key k)
          p.keys
          (press_tracked order ev_key ev_rel key p o).1.keys
  unfolding press_tracked HasPressed
  press_tracked-HasPressed key p none h t = elim (Bool-cases (input_keys_equal key k)) [
    | inl e ↦ inr (t, e, sym (same_tracks key k p.keys e) ∙ h)
    | inr e ↦ inl (rw (e) refl)
  ]
  press_tracked-HasPressed key p (some keys) h t =
      inl (ap (tracks_key k) (note_input_reg-keys key.reg (record p { keys = keys })) ∙ t k)

  press_key-HasPressed :
      (key : HeldKey) (p : Pipe)
      → HasPressed (input_keys_equal key k) p.keys (press_key order ev_key ev_rel key p).1.keys
  unfolding press_key HasPressed
  press_key-HasPressed key p =
      if_split (λ (r : List InputEvent × Pipe). HasPressed (input_keys_equal key k) p.keys r.1.keys)
        (tracks_key key p.keys) (λ h. inl (ground (arith, h, same_tracks key k p.keys)))
        (λ h. press_tracked-HasPressed key p _ h (track_input_key-IsTracking key p.keys))

  -- A full table stays as it is.
  press_key-full :
      (key : HeldKey) (p : Pipe)
      → IsFull p.keys
      → (press_key order ev_key ev_rel key p).1.keys ≡ p.keys
  unfolding press_key press_tracked
  press_key-full key p h =
      if_either (λ (r : List InputEvent × Pipe). r.1.keys ≡ p.keys) (tracks_key key p.keys) refl
        (rw (track_input_key-full key p.keys h) refl)

  press_from-full :
      (n index : ℕ) (p : Pipe)
      → IsFull p.keys
      → (press_from order ev_key ev_rel keepalive n index p).1.keys ≡ p.keys
  unfolding press_from
  press_from-full zero index p h = refl
  press_from-full (suc n) index p h =
      let same = press_key-full (held_key_at order keepalive index) p h in
      press_from-full n (suc index) _ (subst IsFull (sym same) h) ∙ same

  both :
      (same held : Bool) (before mid after : List TrackedKey)
      → HasPressed same before mid
      → HasPressed held mid after
      → (IsFull mid → after ≡ mid)
      → HasPressed (if same then true else held) before after
  unfolding HasPressed
  both same held before mid after (inl e) (inl f) g = inl (ground (arith, e, f))
  both same held before mid after (inr (full, e, f)) _ g =
      inr (subst IsFull (sym (g full)) full, rw (e) refl, ap (tracks_key k) (g full) ∙ f)
  both same held before mid after (inl e) (inr (full, h, f)) g = inr (full, ground (arith, h), f)

  press_from-HasPressed :
      (n index : ℕ) (p : Pipe)
      → HasPressed
          (holds_from order ev_key ev_rel keepalive n index k)
          p.keys
          (press_from order ev_key ev_rel keepalive n index p).1.keys
  unfolding press_from HasPressed holds_from
  press_from-HasPressed zero index p = inl refl
  press_from-HasPressed (suc n) index p =
      let key = held_key_at order keepalive index in
      let mid = (press_key order ev_key ev_rel key p).1 in
      both (input_keys_equal key k) _ p.keys mid.keys _ (press_key-HasPressed key p)
        (press_from-HasPressed n (suc index) mid) (press_from-full n (suc index) mid)

  -- After a keepalive a key is tracked just if the keepalive holds it; only where no slot is free
  -- may a held key be missing.
  pub reconcile_keys-agrees :
      (p : Pipe)
      → (tracks_key k (reconcile_keys order ev_key ev_rel keepalive p).1.keys
          ≡ keepalive_holds_input_key order ev_key ev_rel keepalive k)
        ⊎ (IsFull (reconcile_keys order ev_key ev_rel keepalive p).1.keys
            × (keepalive_holds_input_key order ev_key ev_rel keepalive k ≡ true)
            × (tracks_key k (reconcile_keys order ev_key ev_rel keepalive p).1.keys ≡ false))
  unfolding reconcile_keys HasPressed keepalive_holds_input_key
  reconcile_keys-agrees pipe =
      let p = apply_input_reset pipe in
      let rest : Pipe = record p {
        keys = (release_unheld_input_keys order ev_key ev_rel keepalive p.keys).1;
      } in
      elim (press_from-HasPressed (held_count_of keepalive) 0 rest) [
        | inl e ↦ inl (e ∙ ground (arith, released order ev_key ev_rel keepalive k p.keys))
        | inr e ↦ inr e
      ]
