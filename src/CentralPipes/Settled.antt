-- ===== src/CentralPipes/Settled.antt =====
-- src/central.c: which pipes a check finds stale and connected, and what it releases.
use zmk_feature_split_esb.Prelude.{
  ℕ, suc, ◌≤◌, ◌≡◌, Bool, true, false, ◌&&◌, not, List, [], ◌∷◌, ◌++◌,
}
use zmk_feature_split_esb.Keepalive.Bitmap.{bitmap_get}
use zmk_feature_split_esb.CentralPipes.{PipeState, Call}
use zmk_feature_split_esb.CentralPipes.Staleness.{PipeView, sensor_tracks_reset}
use zmk_feature_split_esb.CentralPipes.Released.{keys_of, IsTold}

-- No key of a pipe is down, its input tables wait for their reset and its sensors for a baseline.
pub record IsReleased (before after : PipeState) : Type 0 where
  pub keys_up : (j : ℕ) → bitmap_get after.tracked j ≡ false
  pub input_reset : after.input.reset_wanted ≡ true
  pub no_baseline : after.sensor_tracks ≡ sensor_tracks_reset before.sensor_tracks

abbrev nothing : ℕ
nothing = 0

module _ (peripheral_timeout_ms : ℕ) (view : PipeView) where
  -- A peer is heard in time if its last packet is no older than the timeout and, where the wire owns
  -- the pipe, the wire is up.
  abbrev pub InTime : ℕ → Type 0
  InTime pipe = (view.quiet_ms pipe ≤ peripheral_timeout_ms) × (view.wire_down pipe ≡ false)

  pub record IsChecked (pipe : ℕ) (before after : PipeState) : Type 0 where
    pub stale_in_time : view.heard pipe ≡ true → InTime pipe → after.stale ≡ false
    pub stale_late : view.heard pipe ≡ true → after.stale ≡ false → InTime pipe
    pub stale_unheard : view.heard pipe ≡ false → after.stale ≡ before.stale
    pub connected : after.connected ≡ (view.heard pipe && not after.stale)
    pub released : before.stale ≡ false → after.stale ≡ true → IsReleased before after
    pub kept_active : after.stale ≡ false → after.tracked ≡ before.tracked
    pub kept_stale : before.stale ≡ true → after.tracked ≡ before.tracked

  module _ (is_self : ℕ → Bool) where
    abbrev shown_state : ℕ → PipeState → PipeState
    shown_state pipe q = record q { connected = view.heard pipe && not q.stale }

    -- The calls of ZMK are those of the pipes, one after the other. The pipe of the central itself is
    -- left alone and has none, and every other is checked.
    abbrev pub AllChecked : ℕ → List PipeState → List Call → List PipeState → Type 0
    AllChecked pipe [] calls [] = calls ≡ []
    AllChecked pipe (p ∷ ps) calls (q ∷ qs) =
        (own : List Call) × (later : List Call) × (calls ≡ own ++ later)
        × (is_self pipe ≡ true → (q ≡ p) × (own ≡ []))
        × (is_self pipe ≡ false → IsChecked pipe p q)
        × IsTold pipe p (keys_of own) q.tracked
        × AllChecked (suc pipe) ps later qs
    AllChecked pipe [] calls (q ∷ qs) = false ≡ true
    AllChecked pipe (p ∷ ps) calls [] = false ≡ true
