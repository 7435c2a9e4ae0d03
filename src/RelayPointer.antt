-- ===== src/RelayPointer.antt =====
-- src/esb_hid_relay_pointer.c: the pointer reports that the central relays. `active` is the answer of
-- `esb_hid_relay_active`, false while the relay is paused.
pub mod Buttons
pub mod Totals
use zmk_feature_split_esb.Prelude.{
  ℕ, ◌+◌, ◌-◌, ◌%◌, ◌^◌, Bool, true, false, ◌&&◌, ◌||◌, not, ltb, ◌==◌, if◌then◌else◌, Option, none,
  some, List, [], ◌∷◌, ◌++◌, length, get_or, drop,
}
use zmk_feature_split_esb.Prelude.Bits.{test_bit, set_bit, clear_bit}
use zmk_feature_split_esb.Prelude.Int.{ℤ, pos, pos_part, neg_part, to_word, of_word}
use zmk_feature_split_esb.ByteOrder.{ByteOrder}
use zmk_feature_split_esb.CentralInput.Deliver.{is_zero}
use zmk_feature_split_esb.CentralInput.State.{InputEvent}
use zmk_feature_split_esb.RelayDongle.{pointer_length}
use zmk_feature_split_esb.Totals.Motion.{short_of}

-- The codes of Zephyr's input events and ZMK's number of mouse buttons and mouse report id.
pub record InputCodes : Type 0 where
  pub rel : ℕ
  pub key : ℕ
  pub rel_x : ℕ
  pub rel_y : ℕ
  pub rel_wheel : ℕ
  pub rel_hwheel : ℕ
  pub btn_touch : ℕ
  pub btn_0 : ℕ
  pub mouse_buttons : ℕ
  pub mouse_id : ℕ

-- One value for each axis: the four sums, or the totals of a report.
pub record Axes : Type 0 where
  pub d_x : ℤ
  pub d_y : ℤ
  pub d_scroll_y : ℤ
  pub d_scroll_x : ℤ

-- `struct zmk_hid_mouse_report_body`
pub record Body : Type 0 where
  pub buttons : ℕ
  pub axes : Axes

pub record Pointer : Type 0 where
  pub sums : Axes
  pub buttons : ℕ
  pub buttons_changed : Bool
  pub refresh_due : Bool
  pub written : Body

abbrev pub still : Axes
still = record { d_x = pos 0; d_y = pos 0; d_scroll_y = pos 0; d_scroll_x = pos 0 }

-- `atomic_add` on the 32-bit words of the cores.
unfoldable pub atomic_add : ℤ → ℤ → ℤ
atomic_add sum value = of_word 32 ((to_word 32 sum + to_word 32 value) % 2 ^ 32)

unfoldable pub short_totals : Axes → Axes
unfolding short_of
short_totals sums = record {
  d_x = short_of sums.d_x;
  d_y = short_of sums.d_y;
  d_scroll_y = short_of sums.d_scroll_y;
  d_scroll_x = short_of sums.d_scroll_x;
}

abbrev pub same_ℤ : ℤ → ℤ → Bool
same_ℤ a b = pos_part a == pos_part b && neg_part a == neg_part b

abbrev pub same_axes : Axes → Axes → Bool
same_axes a b =
    same_ℤ a.d_x b.d_x
    && (same_ℤ a.d_y b.d_y
        && (same_ℤ a.d_scroll_y b.d_scroll_y && same_ℤ a.d_scroll_x b.d_scroll_x))

abbrev pub set_button : ℕ → Bool → ℕ → ℕ
set_button bit true buttons = set_bit buttons bit
set_button bit false buttons = clear_bit 32 buttons bit

unfoldable pub change_button : Option ℕ → Bool → Pointer → Pointer
change_button none pressed p = p
change_button (some bit) pressed p =
    let was_pressed = test_bit p.buttons bit in
    record p {
      buttons = set_button bit pressed p.buttons;
      buttons_changed =
          if (was_pressed && not pressed) || (not was_pressed && pressed)
          then true
          else p.buttons_changed;
    }

-- The report that is staged, if any.
unfoldable pub stage_if_changed : Bool → Pointer → Option Body × Pointer
stage_if_changed sync p =
    if sync && p.buttons_changed
    then (
      some (record { buttons = p.buttons % 256; axes = still }),
      record p { buttons_changed = false },
    )
    else (none, p)

module _ (z : InputCodes) where
  unfoldable pub add_motion : ℕ → ℤ → Axes → Axes
  unfolding atomic_add
  add_motion code value sums =
      if code == z.rel_x
      then record sums { d_x = atomic_add sums.d_x value }
      else if code == z.rel_y
      then record sums { d_y = atomic_add sums.d_y value }
      else if code == z.rel_wheel
      then record sums { d_scroll_y = atomic_add sums.d_scroll_y value }
      else if code == z.rel_hwheel
      then record sums { d_scroll_x = atomic_add sums.d_scroll_x value }
      else sums

  -- The index of the button's bit.
  unfoldable pub button_bit : ℕ → Option ℕ
  button_bit code =
      if code == z.btn_touch
      then some 0
      else if ltb code z.btn_0 || not (ltb code (z.btn_0 + z.mouse_buttons))
      then none
      else some (code - z.btn_0)

  unfoldable pub add_button : ℕ → ℤ → Pointer → Pointer
  unfolding button_bit change_button
  add_button code value p = change_button (button_bit code) (not (is_zero value)) p

  unfoldable pub handle_event : Bool → InputEvent → Pointer → Option Body × Pointer
  unfolding add_motion add_button stage_if_changed
  handle_event active event p =
      let noted : Pointer =
        if event.type == z.rel
        then record p { sums = add_motion event.code event.value p.sums }
        else if event.type == z.key
        then add_button event.code event.value p
        else p in
      if not active then (none, p) else stage_if_changed (not (event.sync == 0)) noted

-- The totals as a report carries them; paused, those of the report that was written last.
unfoldable pub stamp_totals : Bool → Pointer → Axes
unfolding short_totals
stamp_totals active p = if not active then p.written.axes else short_totals p.sums

unfoldable pub report_buttons : Bool → Bool → Pointer → ℕ
report_buttons active changes_queued p =
    if not active then 0 else if changes_queued then p.written.buttons else p.buttons % 256

unfoldable pub body_is_written : Body → Pointer → Bool
body_is_written body p = body.buttons == p.written.buttons && same_axes body.axes p.written.axes

unfoldable pub pointer_refresh : Pointer → Pointer
pointer_refresh p = record p { refresh_due = true }

unfoldable pub pointer_take : Bool → ℕ → Bool → Pointer → Option Body
unfolding stamp_totals report_buttons body_is_written
pointer_take active room changes_queued p =
    let body : Body = record {
      buttons = report_buttons active changes_queued p;
      axes = stamp_totals active p;
    } in
    if ltb room pointer_length
    then none
    else if body_is_written body p && not p.refresh_due
    then none
    else some body

unfoldable pub motion_pending : Bool → Pointer → Bool
unfolding stamp_totals body_is_written
motion_pending active p =
    not (body_is_written (record p.written { axes = stamp_totals active p }) p)

unfoldable pub pointer_sent : Body → Pointer → Pointer
pointer_sent body p = record p { written = body; refresh_due = false }

-- `held` is the buttons of ZMK's own mouse report.
unfoldable pub pointer_reset : Bool → ℕ → Pointer → Pointer
pointer_reset active held p = record p { buttons = if active then held else 0 }

-- A mouse report, and a report read from its bytes.
module _ (order : ByteOrder) (z : InputCodes) where
  abbrev pub axis_bytes : ℤ → List ℕ
  axis_bytes total = order.put_le16 (to_word 16 total)

  unfoldable pub report_bytes : Body → List ℕ
  report_bytes body =
      z.mouse_id
      ∷ body.buttons
      ∷ (axis_bytes body.axes.d_x
          ++ (axis_bytes body.axes.d_y
              ++ (axis_bytes body.axes.d_scroll_y ++ axis_bytes body.axes.d_scroll_x)))

  -- The reply that is to be stamped; `none` if it is no pointer report.
  unfoldable pub pointer_stamp : Bool → List ℕ → Pointer → Option (List ℕ)
  unfolding stamp_totals report_bytes
  pointer_stamp active bytes p =
      let buttons : ℕ = if not active then 0 else get_or bytes 1 0 in
      if not (length bytes == pointer_length) || not (get_or bytes 0 0 == z.mouse_id)
      then none
      else some (report_bytes (record { buttons = buttons; axes = stamp_totals active p }))
