-- ===== src/CentralInput/Told/Deliver.antt =====
-- src/central_input.c: what a live event tells ZMK, and the table behind it.
use mathlib.Core.Path.{subst}
use zmk_feature_split_esb.Prelude.{
  ℕ, ◌%◌, ◌≡◌, refl, sym, ◌∙◌, ap, ◌⊎◌, inl, inr, Bool, true, false, ◌&&◌, ◌||◌, not, ◌==◌,
  if◌then◌else◌, Option, none, some, List, [], ◌∷◌, arith, Bool-cases, if_true, if_false, if_either,
  if_split,
}
use zmk_feature_split_esb.Prelude.Int.{ℤ}
use zmk_feature_split_esb.Prelude.Bits.{test_bit}
use zmk_feature_split_esb.Keepalive.Codec.{HeldKey}
use zmk_feature_split_esb.CentralInput.State.{
  InputEvent, TrackedKey, TrackedMotion, Pipe, input_keys_equal, tracks_key, track_input_key,
  apply_input_reset, note_input_reg,
}
use zmk_feature_split_esb.CentralInput.Deliver.{
  is_zero, keys_or, note_key, delta_of, motion_total_to_delta, deliver_to,
}
use zmk_feature_split_esb.CentralInput.Laws.{
  IsFull, IsTracking, track_input_key-IsTracking, note_input_reg-keys,
}
use zmk_feature_split_esb.CentralInput.Distinct.{
  IsDistinct, tracks_key-untrack_input_key, note_key-IsDistinct,
}
use zmk_feature_split_esb.CentralInput.Told.{told_after}

module _ (ev_key : ℕ) (k : HeldKey) where
  keys_or-tracks :
      (key : HeldKey) (keys : List TrackedKey) (o : Option (List TrackedKey))
      → IsTracking key keys o
      → (tracks_key k (keys_or keys o) ≡ (input_keys_equal key k || tracks_key k keys))
        ⊎ IsFull keys
  keys_or-tracks key keys none t = inr t
  keys_or-tracks key keys (some tracked) t = inl (t k)

  note_key-tracks :
      (key : HeldKey) (pressed : Bool) (keys : List TrackedKey)
      → IsDistinct keys
      → (tracks_key k (note_key key pressed keys)
          ≡ (if input_keys_equal key k then pressed else tracks_key k keys))
        ⊎ IsFull keys
  unfolding note_key
  note_key-tracks key true keys d =
      elim (keys_or-tracks key keys (track_input_key key keys)
        (track_input_key-IsTracking key keys)) [
          | inl e ↦ inl (ground (arith, e))
          | inr full ↦ inr full
        ]
  note_key-tracks key false keys d = inl (ground (arith, tracks_key-untrack_input_key key k keys d))

  -- A step from a table of these keys: no key twice after it, and a key is tracked just if it was
  -- told as pressed, unless the table was full.
  unfoldable pub IsNoted : List TrackedKey → List InputEvent × Pipe → Type 0
  IsNoted keys r =
      IsDistinct r.1.keys
      × ((tracks_key k r.1.keys ≡ told_after ev_key k r.0 (tracks_key k keys)) ⊎ IsFull keys)

  told_after-other :
      (event : InputEvent) (before : Bool)
      → (event.type == ev_key) ≡ false
      → told_after ev_key k (event ∷ []) before ≡ before
  unfolding told_after
  told_after-other event before h = ground (arith, h)

  told_after-key :
      (event : InputEvent) (before : Bool)
      → (event.type == ev_key) ≡ true
      → told_after ev_key k (event ∷ []) before ≡ (
          if input_keys_equal (record { reg = event.reg; code = event.code }) k
          then not (is_zero event.value)
          else before)
  unfolding told_after
  told_after-key event before h = ground (arith, h)

  delta_of-type :
      (event : InputEvent) (p : Pipe) (o : Option (Option ℤ × List TrackedMotion))
      → ((delta_of event p o).0.type ≡ event.type) × ((delta_of event p o).1.keys ≡ p.keys)
  unfolding delta_of
  delta_of-type event p none = (refl, refl)
  delta_of-type event p (some (delta, motions)) = (refl, refl)

  total-IsNoted :
      (uptime_ms : ℕ) (event : InputEvent) (p : Pipe)
      → (event.type == ev_key) ≡ false
      → IsDistinct p.keys
      → IsNoted p.keys (
        (motion_total_to_delta uptime_ms event p).0 ∷ [],
        (motion_total_to_delta uptime_ms event p).1,
      )
  unfolding motion_total_to_delta IsNoted
  total-IsNoted uptime_ms event p h d =
      let (same_type, same_keys) =
        delta_of-type (record event { sync = event.sync % 2 })
          (record p { motion_heard_ms = uptime_ms }) _ in
      (
        subst IsDistinct (sym same_keys) d,
        inl (
            ap (tracks_key k) same_keys
            ∙ sym (told_after-other _ (tracks_key k p.keys) (ap (λ i. i == ev_key) same_type ∙ h))),
      )

  plain-IsNoted :
      (event : InputEvent) (p : Pipe)
      → (event.type == ev_key) ≡ true
      → (not (is_zero event.value)
          && tracks_key (record { reg = event.reg; code = event.code }) p.keys)
        ≡ false
      → IsDistinct p.keys
      → IsNoted p.keys (
        event ∷ [],
        record p {
          keys =
              note_key
                (record { reg = event.reg; code = event.code })
                (not (is_zero event.value))
                p.keys;
        },
      )
  unfolding IsNoted
  plain-IsNoted event p h new d =
      let key : HeldKey = record { reg = event.reg; code = event.code } in
      let pressed = not (is_zero event.value) in
      (
        note_key-IsDistinct key pressed p.keys new d,
        elim (note_key-tracks key pressed p.keys d) [
          | inl e ↦ inl (e ∙ sym (told_after-key event (tracks_key k p.keys) h))
          | inr full ↦ inr full
        ],
      )

  dropped-IsNoted : (p : Pipe) → IsDistinct p.keys → IsNoted p.keys ([], p)
  unfolding IsNoted told_after
  dropped-IsNoted p d = (d, inl refl)

  other-IsNoted :
      (event : InputEvent) (p : Pipe)
      → (event.type == ev_key) ≡ false
      → IsDistinct p.keys
      → IsNoted p.keys (event ∷ [], p)
  unfolding IsNoted
  other-IsNoted event p h d = (d, inl (sym (told_after-other event (tracks_key k p.keys) h)))

  -- A live event, on tables where no key stands twice, leaves them so, and the key tracked just if
  -- ZMK was told that it is pressed, unless the table was full; a key event carries no total.
  pub deliver_to-IsNoted :
      (uptime_ms : ℕ) (event : InputEvent) (pipe : Pipe)
      → ((event.type == ev_key) ≡ true → test_bit event.sync 1 ≡ false)
      → IsDistinct (apply_input_reset pipe).keys
      → IsNoted (apply_input_reset pipe).keys (deliver_to ev_key uptime_ms event pipe)
  unfolding deliver_to
  deliver_to-IsNoted uptime_ms event pipe whole distinct =
      let p = note_input_reg event.reg (apply_input_reset pipe) in
      let same = note_input_reg-keys event.reg (apply_input_reset pipe) in
      let key : HeldKey = record { reg = event.reg; code = event.code } in
      let d : IsDistinct p.keys = subst IsDistinct (sym same) distinct in
      let pressed = not (is_zero event.value) in
      subst (λ keys. IsNoted keys (deliver_to ev_key uptime_ms event pipe)) same
        (if_split (IsNoted p.keys) (event.type == ev_key && (pressed && tracks_key key p.keys))
          (λ h. dropped-IsNoted p d)
          (λ h. elim (Bool-cases (event.type == ev_key)) [
            | inl e ↦
                if_split (IsNoted p.keys) (test_bit event.sync 1)
                  (λ total. absurd (ground (arith, whole e, total)))
                  (λ plain.
                    subst (λ (q : Pipe). IsNoted p.keys (event ∷ [], q)) (sym (if_true _ p e))
                      (plain-IsNoted event p e (ground (arith, h, e)) d))
            | inr e ↦
                if_either (IsNoted p.keys) (test_bit event.sync 1)
                  (subst
                    (λ (q : Pipe). IsNoted p.keys (
                      (motion_total_to_delta uptime_ms event q).0 ∷ [],
                      (motion_total_to_delta uptime_ms event q).1,
                    ))
                    (sym (if_false (record p { keys = note_key key pressed p.keys }) p e))
                    (total-IsNoted uptime_ms event p e d))
                  (subst (λ (q : Pipe). IsNoted p.keys (event ∷ [], q))
                    (sym (if_false (record p { keys = note_key key pressed p.keys }) p e))
                    (other-IsNoted event p e d))
          ]))
