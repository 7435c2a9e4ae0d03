-- ===== src/CentralInput/Deliver.antt =====
-- src/central_input.c: the delivery of a live input event.
use zmk_feature_split_esb.Prelude.{
  ℕ, ◌%◌, Bool, ◌&&◌, not, ◌==◌, if◌then◌else◌, Option, none, some, List, [], ◌∷◌, get_elem?, set,
}
use zmk_feature_split_esb.Prelude.Int.{ℤ, pos, pos_part, neg_part}
use zmk_feature_split_esb.Prelude.Bits.{test_bit}
use zmk_feature_split_esb.Keepalive.Codec.{HeldKey}
use zmk_feature_split_esb.Totals.Motion.{motion_track_delta}
use zmk_feature_split_esb.CentralInput.State.{
  InputEvent, TrackedKey, TrackedMotion, Pipe, note_input_reg, tracks_key, track_input_key,
  untrack_input_key, apply_input_reset, at_claimed_track,
}

-- A delta that is there, else 0.
abbrev pub or_zero : Option ℤ → ℤ
or_zero none = pos 0
or_zero (some delta) = delta

-- The event with the delta of a track that was found or claimed, and the tables with it.
unfoldable pub delta_of :
    InputEvent → Pipe → Option (Option ℤ × List TrackedMotion) → InputEvent × Pipe
delta_of event p none = (record event { value = pos 0 }, p)
delta_of event p (some (delta, motions)) =
    (record event { value = or_zero delta }, record p { motions = motions })

unfoldable pub motion_total_to_delta : ℕ → InputEvent → Pipe → InputEvent × Pipe
unfolding at_claimed_track motion_track_delta delta_of
motion_total_to_delta uptime_ms event p =
    delta_of (record event { sync = event.sync % 2 }) (record p { motion_heard_ms = uptime_ms })
      (at_claimed_track event.reg (event.code % 256) (λ track. motion_track_delta track event.value)
        p.motions)

abbrev pub keys_or : List TrackedKey → Option (List TrackedKey) → List TrackedKey
keys_or keys none = keys
keys_or keys (some tracked) = tracked

-- Without a free slot the key stays untracked.
unfoldable pub note_key : HeldKey → Bool → List TrackedKey → List TrackedKey
unfolding track_input_key untrack_input_key
note_key key pressed keys =
    if not pressed then untrack_input_key key keys else keys_or keys (track_input_key key keys)

abbrev pub is_zero : ℤ → Bool
is_zero z = pos_part z == 0 && neg_part z == 0

-- `central_input_deliver_event` on the tables of its pipe; `input_ev_key` is Zephyr's INPUT_EV_KEY.
unfoldable pub deliver_to : ℕ → ℕ → InputEvent → Pipe → List InputEvent × Pipe
unfolding apply_input_reset note_input_reg tracks_key note_key motion_total_to_delta
deliver_to input_ev_key uptime_ms event pipe =
    let p = note_input_reg event.reg (apply_input_reset pipe) in
    let key : HeldKey = record { reg = event.reg; code = event.code } in
    let pressed = not (is_zero event.value) in
    let noted : Pipe =
      if event.type == input_ev_key then record p { keys = note_key key pressed p.keys } else p in
    let (delta, moved) = motion_total_to_delta uptime_ms event noted in
    if event.type == input_ev_key && (pressed && tracks_key key p.keys)
    then ([], p)
    else if test_bit event.sync 1
    then (delta ∷ [], moved)
    else (event ∷ [], noted)

unfoldable pub central_input_deliver_event :
    ℕ → ℕ → ℕ → InputEvent → List Pipe → List InputEvent × List Pipe
unfolding deliver_to
central_input_deliver_event input_ev_key uptime_ms pipe event pipes = elim (get_elem? pipes pipe) [
  | none ↦ (event ∷ [], pipes)
  | some p ↦
      let (events, after) = deliver_to input_ev_key uptime_ms event p in
      (events, set pipes pipe after)
]
