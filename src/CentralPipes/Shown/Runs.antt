-- ===== src/CentralPipes/Shown/Runs.antt =====
-- src/central.c: a run of checks and of entries of the queue, as a listener hears it.
use zmk_feature_split_esb.Prelude.{ℕ, ◌≡◌, Bool, true, List, [], ◌∷◌, ◌++◌}
use zmk_feature_split_esb.ByteOrder.{ByteOrder}
use zmk_feature_split_esb.CentralPipes.{Connections, PipeState, Call}
use zmk_feature_split_esb.CentralPipes.Staleness.{
  PipeView, central_connections_status, staleness_work,
}
use zmk_feature_split_esb.CentralPipes.Inbound.{ZmkEvents, Inbound, central_event}
use zmk_feature_split_esb.CentralPipes.Shown.{Listener, hear_all, Shown, AllShown}

-- A check, by what it reads of the pipes, or an entry of the queue with its source.
pub data CentralStep : Type 0 where
  checked : PipeView → CentralStep
  taken : ℕ → Inbound → CentralStep

module _ (is_self : ℕ → Bool) where
  -- The listener has heard of the present state: of every peripheral and battery, and of the status,
  -- which is that of the pipes.
  pub record IsShown (ps : List PipeState) (last : Connections) (v : Listener) : Type 0 where
    pub pipes : AllShown 0 ps v
    pub heard_status : v.status ≡ last
    pub status : last ≡ central_connections_status is_self ps

  module _ (order : ByteOrder) (z : ZmkEvents) (peripheral_timeout_ms : ℕ) where
    -- A run with the status callback set: the calls, and the state behind them.
    unfoldable pub run :
        List CentralStep → List PipeState → Connections → List Call × List PipeState × Connections
    unfolding staleness_work central_event
    run [] ps last = ([], ps, last)
    run (checked view ∷ steps) ps last =
        let (calls, after, connections) =
          staleness_work is_self peripheral_timeout_ms view true ps last in
        let (later, rest, end) = run steps after connections in (calls ++ later, rest, end)
    run (taken source inbound ∷ steps) ps last =
        let (calls, after) = central_event order z source inbound ps in
        let (later, rest, end) = run steps after last in (calls ++ later, rest, end)

    abbrev ShownAfter : Listener → List Call × List PipeState × Connections → Type 0
    ShownAfter v r = IsShown r.1 r.2 (hear_all r.0 v)
