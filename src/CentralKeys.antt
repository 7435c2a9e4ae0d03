-- ===== src/CentralKeys.antt =====
-- src/central.c: the key positions that the central tracks for each pipe, the delivery of a live
-- key event and the replay of a keepalive's bitmap. An event that is handed to ZMK
-- (`zmk_split_transport_central_peripheral_event_handler`) is an entry of the list that a function
-- answers with, in the order of the calls.
pub mod Laws
use zmk_feature_split_esb.Prelude.{
  ℕ, zero, suc, ◌+◌, ◌||◌, Bool, true, false, leb, ltb, if◌then◌else◌, List, [], ◌∷◌, get_or, set,
}
use zmk_feature_split_esb.Keepalive.Bitmap.{
  position_count, bitmap_set, bitmap_get, bitmap_diff_next, KeyVerdict, forward,
  drop_orphan_release, heal_lost_release, key_verdict,
}

-- ESB_LINK_PIPE_MAX
abbrev pub pipe_max : ℕ
pipe_max = 8

pub record KeyEvent : Type 0 where
  pub source : ℕ
  pub position : ℕ
  pub pressed : Bool

-- What `deliver_key_event` does to one pipe's bitmap, after its guard.
unfoldable pub deliver_verdict : KeyVerdict → KeyEvent → List ℕ → List KeyEvent × List ℕ
deliver_verdict drop_orphan_release e tracked = ([], tracked)
deliver_verdict heal_lost_release e tracked =
    (record e { pressed = false } ∷ e ∷ [], bitmap_set tracked e.position e.pressed)
deliver_verdict forward e tracked = (e ∷ [], bitmap_set tracked e.position e.pressed)

unfoldable pub deliver_key_event : KeyEvent → List (List ℕ) → List KeyEvent × List (List ℕ)
unfolding deliver_verdict
deliver_key_event e tracked_positions =
    let tracked = get_or tracked_positions e.source [] in
    let (events, after) = deliver_verdict (key_verdict tracked e.position e.pressed) e tracked in
    if leb pipe_max e.source || leb position_count e.position
    then (e ∷ [], tracked_positions)
    else (events, set tracked_positions e.source after)

-- The loop of `replay_position_diff`, `fuel` rounds at most.
unfoldable pub replay_from : ℕ → ℕ → List ℕ → List ℕ → ℕ → List KeyEvent × List ℕ
replay_from source zero target tracked position = ([], tracked)
replay_from source (suc fuel) target tracked position =
    let pressed = bitmap_get target position in
    let noted = bitmap_set tracked position pressed in
    let rest =
      replay_from source fuel target noted (bitmap_diff_next noted target (position + 1)) in
    if ltb position position_count
    then (record { source = source; position = position; pressed = pressed } ∷ rest.0, rest.1)
    else ([], tracked)

-- `replay_position_diff` on the bitmap of its pipe.
unfoldable pub replay_tracked : ℕ → List ℕ → List ℕ → List KeyEvent × List ℕ
unfolding replay_from
replay_tracked source target tracked =
    replay_from source position_count target tracked (bitmap_diff_next tracked target 0)

unfoldable pub replay_position_diff : ℕ → List ℕ → List (List ℕ) → List KeyEvent × List (List ℕ)
unfolding replay_tracked
replay_position_diff source target tracked_positions =
    let (events, after) = replay_tracked source target (get_or tracked_positions source []) in
    if leb pipe_max source
    then ([], tracked_positions)
    else (events, set tracked_positions source after)
