-- ===== src/CentralInput/Reconcile.antt =====
-- src/central_input.c: the reconciliation with a keepalive, and the release of a pipe.
use zmk_feature_split_esb.ByteOrder.{ByteOrder}
use zmk_feature_split_esb.Prelude.{
  ℕ, zero, suc, ◌+◌, ◌-◌, ◌%◌, ◌^◌, Bool, true, false, ◌||◌, not, if◌then◌else◌, Option, none, some,
  List, [], ◌∷◌, ◌++◌, get_elem?, set,
}
use zmk_feature_split_esb.Prelude.Int.{ℤ, pos}
use zmk_feature_split_esb.Prelude.Bits.{test_bit}
use zmk_feature_split_esb.Keepalive.Codec.{
  HeldKey, held_count_of, motion_count_of, held_key_at, motion_total_at,
}
use zmk_feature_split_esb.Totals.Motion.{motion_track_short_delta, motion_quiet_enough}
use zmk_feature_split_esb.CentralInput.State.{
  reg_max, InputEvent, TrackedKey, TrackedMotion, Pipe, note_input_reg, input_keys_equal,
  tracks_key, track_input_key, apply_input_reset, at_motion_track,
}

-- `order` is Zephyr's byte order; `input_ev_key` and `input_ev_rel` its INPUT_EV_KEY and INPUT_EV_REL.
module _ (order : ByteOrder) (input_ev_key input_ev_rel : ℕ) where
  unfoldable pub replay_input_key : HeldKey → Bool → InputEvent
  replay_input_key key pressed = record {
    reg = key.reg;
    type = input_ev_key;
    code = key.code;
    value = if pressed then pos 1 else pos 0;
    sync = 1;
  }

  -- The loop over the `n` held keys from `index` on.
  unfoldable pub holds_from : List ℕ → ℕ → ℕ → HeldKey → Bool
  unfolding input_keys_equal
  holds_from keepalive zero index key = false
  holds_from keepalive (suc n) index key =
      if input_keys_equal (held_key_at order keepalive index) key
      then true
      else holds_from keepalive n (suc index) key

  unfoldable pub keepalive_holds_input_key : List ℕ → HeldKey → Bool
  unfolding holds_from
  keepalive_holds_input_key keepalive key = holds_from keepalive (held_count_of keepalive) 0 key

  unfoldable pub release_unheld_input_keys :
      List ℕ → List TrackedKey → List InputEvent × List TrackedKey
  unfolding keepalive_holds_input_key replay_input_key
  release_unheld_input_keys keepalive [] = ([], [])
  release_unheld_input_keys keepalive (slot ∷ slots) =
      let (events, rest) = release_unheld_input_keys keepalive slots in
      if not slot.held || keepalive_holds_input_key keepalive slot.key
      then (events, slot ∷ rest)
      else (replay_input_key slot.key false ∷ events, record slot { held = false } ∷ rest)

  -- The press of a key that was not tracked, with the table that tracks it, if there is room.
  unfoldable pub press_tracked : HeldKey → Pipe → Option (List TrackedKey) → List InputEvent × Pipe
  unfolding note_input_reg replay_input_key
  press_tracked key p none = ([], p)
  press_tracked key p (some keys) =
      (replay_input_key key true ∷ [], note_input_reg key.reg (record p { keys = keys }))

  -- A round of the loop of `press_held_input_keys`.
  unfoldable pub press_key : HeldKey → Pipe → List InputEvent × Pipe
  unfolding tracks_key track_input_key press_tracked
  press_key key p =
      if tracks_key key p.keys then ([], p) else press_tracked key p (track_input_key key p.keys)

  -- The loop over the `n` held keys from `index` on.
  unfoldable pub press_from : List ℕ → ℕ → ℕ → Pipe → List InputEvent × Pipe
  unfolding press_key
  press_from keepalive zero index p = ([], p)
  press_from keepalive (suc n) index p =
      let (pressed, noted) = press_key (held_key_at order keepalive index) p in
      let (events, after) = press_from keepalive n (suc index) noted in (pressed ++ events, after)

  -- The event of a delta that was found, and the tables with the track advanced.
  unfoldable pub heal_of :
      ℕ → ℕ → Pipe → Option (Option ℤ × List TrackedMotion) → Option InputEvent × Pipe
  heal_of reg code p none = (none, p)
  heal_of reg code p (some (none, motions)) = (none, record p { motions = motions })
  heal_of reg code p (some (some delta, motions)) = (
    some (record { reg = reg; type = input_ev_rel; code = code; value = delta; sync = 0 }),
    record p { motions = motions },
  )

  -- `none` where there is nothing to heal.
  unfoldable pub motion_heal_at : List ℕ → ℕ → Pipe → Option InputEvent × Pipe
  unfolding at_motion_track motion_track_short_delta heal_of
  motion_heal_at keepalive index p =
      let motion = motion_total_at order keepalive index in
      heal_of motion.reg motion.code p (
        at_motion_track motion.reg motion.code
          (λ track. motion_track_short_delta track motion.short_total) p.motions)

  -- The pending event, delivered with this sync.
  unfoldable pub deliver_heal : Option InputEvent → Bool → List InputEvent
  deliver_heal none sync = []
  deliver_heal (some heal) sync = record heal { sync = if sync then 1 else 0 } ∷ []

  -- In a round of the loop with `heal`: what is delivered, and what is pending behind it.
  unfoldable pub deliver_pending : Option InputEvent → Option InputEvent → List InputEvent
  unfolding deliver_heal
  deliver_pending none pending = []
  deliver_pending (some heal) pending = deliver_heal pending false

  abbrev pub pending_behind : Option InputEvent → Option InputEvent → Option InputEvent
  pending_behind none pending = pending
  pending_behind (some heal) pending = some heal

  -- The loop over the `n` totals from `index` on, and the delivery behind it.
  unfoldable pub heal_from : List ℕ → ℕ → ℕ → Option InputEvent → Pipe → List InputEvent × Pipe
  unfolding motion_heal_at deliver_pending
  heal_from keepalive zero index pending p = (deliver_heal pending true, p)
  heal_from keepalive (suc n) index pending p =
      let (heal, healed) = motion_heal_at keepalive index p in
      let (events, after) =
        heal_from keepalive n (suc index) (pending_behind heal pending) healed in
      (deliver_pending heal pending ++ events, after)

  unfoldable pub heal_lost_motion : ℕ → ℕ → List ℕ → Pipe → List InputEvent × Pipe
  unfolding heal_from motion_quiet_enough
  heal_lost_motion hop_window_ms uptime_ms keepalive p =
      if not
        (motion_quiet_enough ((uptime_ms + (2 ^ 32 - p.motion_heard_ms)) % 2 ^ 32) hop_window_ms)
      then ([], p)
      else heal_from keepalive (motion_count_of keepalive) 0 none p

  -- The releases, then the presses, on the tables after a wanted reset.
  unfoldable pub reconcile_keys : List ℕ → Pipe → List InputEvent × Pipe
  unfolding apply_input_reset release_unheld_input_keys press_from
  reconcile_keys keepalive pipe =
      let p = apply_input_reset pipe in
      let (released, keys) = release_unheld_input_keys keepalive p.keys in
      let (pressed, after) =
        press_from keepalive (held_count_of keepalive) 0 (record p { keys = keys }) in
      (released ++ pressed, after)

  unfoldable pub reconcile : ℕ → ℕ → List ℕ → Pipe → List InputEvent × Pipe
  unfolding reconcile_keys heal_lost_motion
  reconcile hop_window_ms uptime_ms keepalive pipe =
      let (switched, noted) = reconcile_keys keepalive pipe in
      let (healed, after) = heal_lost_motion hop_window_ms uptime_ms keepalive noted in
      (switched ++ healed, after)

  unfoldable pub central_input_reconcile :
      ℕ → ℕ → ℕ → List ℕ → List Pipe → List InputEvent × List Pipe
  unfolding reconcile
  central_input_reconcile hop_window_ms uptime_ms pipe keepalive pipes =
      elim (get_elem? pipes pipe) [
        | none ↦ ([], pipes)
        | some p ↦
            let (events, after) = reconcile hop_window_ms uptime_ms keepalive p in
            (events, set pipes pipe after)
      ]

-- The loop over the `n` registers from `reg` on: those that a disconnect is told of.
unfoldable pub seen_regs : ℕ → ℕ → ℕ → List ℕ
seen_regs seen zero reg = []
seen_regs seen (suc n) reg =
    if test_bit seen reg then reg ∷ seen_regs seen n (suc reg) else seen_regs seen n (suc reg)

-- `central_input_release_pipe` on the tables of its pipe: the registers whose devices
-- `zmk_input_split_peripheral_disconnected` is called for, in order.
unfoldable pub release_tables : Pipe → List ℕ × Pipe
unfolding seen_regs
release_tables p = (seen_regs p.seen_input_regs reg_max 0, record p { reset_wanted = true })

unfoldable pub central_input_release_pipe : ℕ → List Pipe → List ℕ × List Pipe
unfolding release_tables
central_input_release_pipe pipe pipes = elim (get_elem? pipes pipe) [
  | none ↦ ([], pipes)
  | some p ↦ let (regs, after) = release_tables p in (regs, set pipes pipe after)
]
