-- ===== src/RelayPointer/Buttons.antt =====
-- src/esb_hid_relay_pointer.c: the buttons of the reports that are staged.
use zmk_feature_split_esb.Prelude.{
  ℕ, ◌≤◌, ◌<◌, ◌≡◌, Bool, true, false, ◌&&◌, not, ◌==◌, if◌then◌else◌, Option, none, some, List, [],
  ◌∷◌,
}
use zmk_feature_split_esb.Prelude.Bits.{test_bit}
use zmk_feature_split_esb.CentralInput.Deliver.{is_zero}
use zmk_feature_split_esb.CentralInput.State.{InputEvent}
use zmk_feature_split_esb.RelayPointer.{
  InputCodes, Body, Pointer, button_bit, add_motion, add_button, handle_event,
}

abbrev pub told_buttons : Option Body → ℕ → ℕ
told_buttons none buttons = buttons
told_buttons (some body) buttons = body.buttons

module _ (z : InputCodes) (few : z.mouse_buttons ≤ 8) where
  abbrev pub is_bit : Option ℕ → ℕ → Bool
  is_bit none i = false
  is_bit (some bit) i = bit == i

  -- Whether the last key event of a button was a press; `before` with no event of it.
  abbrev pub last_pressed : ℕ → List InputEvent → Bool → Bool
  last_pressed i [] before = before
  last_pressed i (e ∷ es) before = last_pressed i es (
      if not (e.type == z.rel) && (e.type == z.key && is_bit (button_bit z e.code) i)
      then not (is_zero e.value)
      else before)

  -- The events of a run while the relay is active, and the buttons of the report that was staged last.
  unfoldable pub run : List InputEvent → Pointer → ℕ → ℕ × Pointer
  unfolding handle_event
  run [] p buttons = (buttons, p)
  run (e ∷ es) p buttons =
      let (staged, after) = handle_event z true e p in run es after (told_buttons staged buttons)

  -- Unless a change waits for its sync, the buttons staged last are those that are pressed.
  abbrev pub IsStaged : ℕ → ℕ × Pointer → Type 0
  IsStaged i r = r.1.buttons_changed ≡ false → test_bit r.0 i ≡ test_bit r.1.buttons i

  abbrev IsFew : Option ℕ → Type 0
  IsFew none = Unit
  IsFew (some bit) = bit < 8

  -- What an event does before its sync.
  abbrev noted : InputEvent → Pointer → Pointer
  noted e p =
      if e.type == z.rel
      then record p { sums = add_motion z e.code e.value p.sums }
      else if e.type == z.key
      then add_button z e.code e.value p
      else p
