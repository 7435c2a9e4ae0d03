-- ===== src/Tests/CentralKeys.antt =====
-- src/central.c.
use zmk_feature_split_esb.Prelude.{ℕ, ◌≡◌, ◌≢◌, true, List, [], ◌∷◌, get_or, replicate, arith}
use zmk_feature_split_esb.Keepalive.Bitmap.{bitmap_get}
use zmk_feature_split_esb.CentralKeys.{KeyEvent, deliver_key_event, replay_position_diff}
use zmk_feature_split_esb.CentralKeys.Laws.{
  SameKeys, IsAlternating, IsTracked, live_events, deliver_key_event-IsAlternating,
  replay_position_diff-IsAlternating,
}

-- Two pipes; on the second the keys 0 and 9 are down.
abbrev tracked_positions : List (List ℕ)
tracked_positions = replicate 8 0 ∷ (1 ∷ 2 ∷ replicate 6 0) ∷ []

tracked_positions-IsTracked : IsTracked tracked_positions 1
tracked_positions-IsTracked = record { low = omega arith; there = omega arith; wide = omega arith }

-- A press of a key that is down, the release lost.
abbrev press : KeyEvent
press = record { source = 1; position = 9; pressed = true }

deliver_key_event-IsAlternating_example :
    let after = deliver_key_event press tracked_positions in
    (after.0 ≡ live_events true true press)
    × IsAlternating (get_or tracked_positions 1 []) after.0 (get_or after.1 1 [])
    × (bitmap_get (get_or after.1 1 []) 9 ≡ true)
    × ((j : ℕ) → 1 ≢ j → get_or after.1 j [] ≡ get_or tracked_positions j [])
unfolding bitmap_get
deliver_key_event-IsAlternating_example =
    deliver_key_event-IsAlternating tracked_positions press tracked_positions-IsTracked
      (omega arith)

replay_position_diff-IsAlternating_example :
    let after = replay_position_diff 1 (replicate 8 4) tracked_positions in
    IsAlternating (get_or tracked_positions 1 []) after.0 (get_or after.1 1 [])
    × SameKeys (get_or after.1 1 []) (replicate 8 4)
    × ((j : ℕ) → 1 ≢ j → get_or after.1 j [] ≡ get_or tracked_positions j [])
replay_position_diff-IsAlternating_example =
    replay_position_diff-IsAlternating tracked_positions 1 (replicate 8 4)
      tracked_positions-IsTracked
