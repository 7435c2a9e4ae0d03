-- ===== src/CentralPipes/Released.antt =====
-- src/central.c: the key events among the calls of a check for silent peripherals.
use mathlib.Core.List.{append-nil}
use mathlib.Core.Path.{subst}
use zmk_feature_split_esb.Prelude.{
  ℕ, zero, suc, ◌+◌, ◌≤◌, ◌≡◌, refl, sym, ◌∙◌, ap, Bool, ◌&&◌, not, ltb, if◌then◌else◌, List, [],
  ◌∷◌, ◌++◌, length, All, if_either,
}
use zmk_feature_split_esb.Keepalive.Bitmap.{
  position_count, bitmap_set, bitmap_get, bitmap_diff_next,
}
use zmk_feature_split_esb.CentralKeys.{KeyEvent, replay_from, replay_tracked}
use zmk_feature_split_esb.CentralKeys.Laws.{IsAlternating, settled, replay_tracked-IsAlternating}
use zmk_feature_split_esb.CentralInput.Reconcile.{release_tables}
use zmk_feature_split_esb.CentralPipes.{
  PipeState, Call, key_position, rotation, split_event, input_disconnected, battery_changed,
  peripheral_changed, status_changed, key_calls, input_calls,
}
use zmk_feature_split_esb.CentralPipes.Staleness.{
  PipeView, no_positions, release_stale_pipe, peer_active, check_heard, note_connected, check_pipe,
  same_bool,
}

-- The key events among the calls of ZMK.
abbrev pub keys_of : List Call → List KeyEvent
keys_of [] = []
keys_of (key_position e ∷ calls) = e ∷ keys_of calls
keys_of (rotation pipe index val1 val2 ∷ calls) = keys_of calls
keys_of (split_event pipe event ∷ calls) = keys_of calls
keys_of (input_disconnected pipe reg ∷ calls) = keys_of calls
keys_of (battery_changed pipe level ∷ calls) = keys_of calls
keys_of (peripheral_changed pipe connected ∷ calls) = keys_of calls
keys_of (status_changed connections ∷ calls) = keys_of calls

-- The key events that ZMK gets in a pipe's round are the pipe's own, and take its keys from the state
-- before to the one after, each a real change.
abbrev pub IsTold : ℕ → PipeState → List KeyEvent → List ℕ → Type 0
IsTold pipe before events tracked =
    IsAlternating before.tracked events tracked × All (λ (e : KeyEvent). e.source ≡ pipe) events

keys_of-append : (calls more : List Call) → keys_of (calls ++ more) ≡ keys_of calls ++ keys_of more
keys_of-append [] more = refl
keys_of-append (key_position e ∷ calls) more = ap (λ es. e ∷ es) (keys_of-append calls more)
keys_of-append (rotation pipe index val1 val2 ∷ calls) more = keys_of-append calls more
keys_of-append (split_event pipe event ∷ calls) more = keys_of-append calls more
keys_of-append (input_disconnected pipe reg ∷ calls) more = keys_of-append calls more
keys_of-append (battery_changed pipe level ∷ calls) more = keys_of-append calls more
keys_of-append (peripheral_changed pipe connected ∷ calls) more = keys_of-append calls more
keys_of-append (status_changed connections ∷ calls) more = keys_of-append calls more

keys_of-key_calls : (events : List KeyEvent) → keys_of (key_calls events) ≡ events
keys_of-key_calls [] = refl
keys_of-key_calls (e ∷ events) = ap (λ es. e ∷ es) (keys_of-key_calls events)

keys_of-input_calls : (pipe : ℕ) (regs : List ℕ) → keys_of (input_calls pipe regs) ≡ []
keys_of-input_calls pipe [] = refl
keys_of-input_calls pipe (reg ∷ regs) = keys_of-input_calls pipe regs

-- Calls with no key event behind others.
keys_of-first :
    (calls more : List Call) → keys_of more ≡ [] → keys_of (calls ++ more) ≡ keys_of calls
keys_of-first calls more quiet =
    keys_of-append calls more ∙ ap (λ es. keys_of calls ++ es) quiet ∙ append-nil (keys_of calls)

replay_from-source :
    (source fuel : ℕ) (target tracked : List ℕ) (position : ℕ)
    → All (λ (e : KeyEvent). e.source ≡ source) (replay_from source fuel target tracked position).0
unfolding replay_from
replay_from-source source zero target tracked position = tt
replay_from-source source (suc fuel) target tracked position =
    let noted = bitmap_set tracked position (bitmap_get target position) in
    if_either (λ (r : List KeyEvent × List ℕ). All (λ (e : KeyEvent). e.source ≡ source) r.0)
      (ltb position position_count)
      (
        refl,
        replay_from-source source fuel target noted (bitmap_diff_next noted target (position + 1)),
      )
      tt

release-IsTold :
    (pipe : ℕ) (p : PipeState)
    → 8 ≤ length p.tracked
    → IsTold pipe p (keys_of (release_stale_pipe pipe p).0) (release_stale_pipe pipe p).1.tracked
unfolding release_stale_pipe replay_tracked
release-IsTold pipe p size =
    let replayed = replay_tracked pipe no_positions p.tracked in
    let told : IsTold pipe p replayed.0 replayed.1 = (
      (replay_tracked-IsAlternating pipe no_positions p.tracked size).0,
      replay_from-source pipe position_count no_positions p.tracked _,
    ) in
    subst (λ es. IsTold pipe p es replayed.1)
      (sym (
        keys_of-first (key_calls replayed.0) (input_calls pipe (release_tables p.input).0)
          (keys_of-input_calls pipe (release_tables p.input).0)
        ∙ keys_of-key_calls replayed.0))
      told

module _ (is_self : ℕ → Bool) (peripheral_timeout_ms : ℕ) (v : PipeView) where
  check_heard-IsTold :
      (pipe : ℕ) (p : PipeState)
      → 8 ≤ length p.tracked
      → let r = check_heard is_self peripheral_timeout_ms v pipe p in
        IsTold pipe p (keys_of r.0) r.1.tracked
  unfolding check_heard
  check_heard-IsTold pipe p size =
      let Told : List Call × PipeState → Type 0 = λ r. IsTold pipe p (keys_of r.0) r.1.tracked in
      if_either Told (peer_active is_self peripheral_timeout_ms v pipe) (settled (λ j. refl), tt)
        (if_either Told (not p.stale) (release-IsTold pipe p size) (settled (λ j. refl), tt))

  note_connected-quiet :
      (pipe : ℕ) (q : PipeState)
      → let r = note_connected is_self peripheral_timeout_ms v pipe q in
        (keys_of r.0 ≡ []) × (r.1.tracked ≡ q.tracked)
  unfolding note_connected
  note_connected-quiet pipe q =
      if_either (λ (r : List Call × PipeState). (keys_of r.0 ≡ []) × (r.1.tracked ≡ q.tracked))
        (not (same_bool (v.heard pipe && not q.stale) q.connected)) (refl, refl) (refl, refl)

  -- What ZMK gets of the keys in a round.
  pub check_pipe-IsTold :
      (pipe : ℕ) (p : PipeState)
      → 8 ≤ length p.tracked
      → let r = check_pipe is_self peripheral_timeout_ms v pipe p in
        IsTold pipe p (keys_of r.0) r.1.tracked
  unfolding check_pipe
  check_pipe-IsTold pipe p size =
      let Told : List Call × PipeState → Type 0 = λ r. IsTold pipe p (keys_of r.0) r.1.tracked in
      let checked : List Call × PipeState =
        if v.heard pipe then check_heard is_self peripheral_timeout_ms v pipe p else ([], p) in
      let told : Told checked =
        if_either Told (v.heard pipe) (check_heard-IsTold pipe p size) (settled (λ j. refl), tt) in
      let noted = note_connected is_self peripheral_timeout_ms v pipe checked.1 in
      let (quiet, kept) = note_connected-quiet pipe checked.1 in
      let all_told : Told (checked.0 ++ noted.0, noted.1) =
        subst (λ es. IsTold pipe p es noted.1.tracked) (sym (keys_of-first checked.0 noted.0 quiet))
          (subst (IsTold pipe p (keys_of checked.0)) (sym kept) told) in
      if_either Told (is_self pipe) {a = ([], p)} (settled (λ j. refl), tt) all_told
