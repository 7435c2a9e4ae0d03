-- ===== src/Tests/Relay.antt =====
-- src/esb_hid_relay_pointer.c and src/esb_hid_relay_peripheral.c.
use zmk_feature_split_esb.Prelude.{ℕ, Bool, true, false, not, List, [], ◌∷◌, replicate, arith}
use zmk_feature_split_esb.Prelude.Int.{pos, negsuc}
use zmk_feature_split_esb.CentralInput.State.{InputEvent}
use zmk_feature_split_esb.RelayDongle.{Reports, Told, Dongle}
use zmk_feature_split_esb.RelayDongle.Shown.{Host, run}
use zmk_feature_split_esb.RelayPointer.{InputCodes, Pointer, still, pointer_take}
use zmk_feature_split_esb.RelayPointer.Buttons.{run as run_events}
use zmk_feature_split_esb.RelayPointer.Totals.{
  IsTaken, IsSettled, after_sent, pointer_take-IsSettled,
}

abbrev reports : Reports
reports = record {
  keyboard_id = 1;
  consumer_id = 2;
  mouse_id = 3;
  keyboard_length = 3;
  consumer_length = 2;
}

-- A sink that refuses every other call.
abbrev takes : List Told → List ℕ → Bool → Bool
takes [] bytes only_motion = false
takes (t ∷ told) bytes only_motion = not (takes told bytes only_motion)

abbrev host : Host
host = record { keys = 1 ∷ 0 ∷ 0 ∷ []; usages = 2 ∷ 0 ∷ []; buttons = 0 }

abbrev dongle : Dongle
dongle = record {
  delivered_keyboard = host.keys;
  delivered_consumer = host.usages;
  delivered_buttons = 0;
  pointer_tracks = replicate 4 (record { last_total = pos 0; valid = false });
  pointer_heard_ms = 0;
  told = [];
}

abbrev payloads : List (Bool × ℕ × List ℕ)
payloads =
    (true, 10, 1 ∷ 0 ∷ 4 ∷ 2 ∷ 7 ∷ [])
    ∷ (true, 20, 1 ∷ 0 ∷ 4 ∷ (3 ∷ 1 ∷ replicate 8 0))
    ∷ (true, 30, 3 ∷ 1 ∷ [])
    ∷ []

abbrev codes : InputCodes
codes = record {
  rel = 2;
  key = 1;
  rel_x = 0;
  rel_y = 1;
  rel_wheel = 8;
  rel_hwheel = 6;
  btn_touch = 0x14a;
  btn_0 = 0x110;
  mouse_buttons = 5;
  mouse_id = 3;
}

abbrev pointer : Pointer
pointer = record {
  sums = record still { d_x = negsuc 2 };
  buttons = 2;
  buttons_changed = false;
  refresh_due = false;
  written = record { buttons = 2; axes = still };
}

abbrev press_left : InputEvent
press_left = record { reg = 0; type = 1; code = 0x110; value = pos 1; sync = 0 }

abbrev release_right : InputEvent
release_right = record { reg = 0; type = 1; code = 0x111; value = pos 0; sync = 1 }

pointer_take-IsSettled_example :
    IsTaken true false pointer (pointer_take true 12 false pointer)
    × IsSettled true false pointer (after_sent (pointer_take true 12 false pointer) pointer)
pointer_take-IsSettled_example = pointer_take-IsSettled true false 12 pointer (omega arith)
