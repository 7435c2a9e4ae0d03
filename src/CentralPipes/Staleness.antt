-- ===== src/CentralPipes/Staleness.antt =====
-- src/central.c: the check for silent peripherals and the status of the connections.
use zmk_feature_split_esb.Prelude.{
  ℕ, suc, ◌+◌, Bool, true, false, ◌&&◌, not, ltb, leb, ◌==◌, if◌then◌else◌, List, [], ◌∷◌, ◌++◌,
  map, replicate,
}
use zmk_feature_split_esb.CentralInput.Reconcile.{release_tables}
use zmk_feature_split_esb.CentralKeys.{replay_tracked}
use zmk_feature_split_esb.Totals.Sensor.{SensorTrack}
use zmk_feature_split_esb.CentralPipes.{
  Connections, disconnected, some_connected, all_connected, PipeState, Call, peripheral_changed,
  status_changed, key_calls, input_calls,
}

-- What the check reads of a pipe: `hop_pipe_quiet_ms` and `hop_pipe_heard`, and whether the wire owns
-- the pipe and its peer is down.
pub record PipeView : Type 0 where
  pub quiet_ms : ℕ → ℕ
  pub heard : ℕ → Bool
  pub wire_down : ℕ → Bool

-- ESB_KEEPALIVE_BITMAP_BYTES of 0.
abbrev pub no_positions : List ℕ
no_positions = replicate 8 0

unfoldable pub sensor_tracks_reset : List SensorTrack → List SensorTrack
sensor_tracks_reset tracks = map (λ (track : SensorTrack). record track { valid = false }) tracks

-- `release_stale_pipe` and the reset of the sensors behind it.
unfoldable pub release_stale_pipe : ℕ → PipeState → List Call × PipeState
unfolding replay_tracked release_tables sensor_tracks_reset
release_stale_pipe pipe p =
    let (events, tracked) = replay_tracked pipe no_positions p.tracked in
    let (regs, input) = release_tables p.input in
    (
      key_calls events ++ input_calls pipe regs,
      record p {
        tracked = tracked;
        input = input;
        sensor_tracks = sensor_tracks_reset p.sensor_tracks;
        stale = true;
      },
    )

abbrev pub same_bool : Bool → Bool → Bool
same_bool true b = b
same_bool false b = not b

abbrev pub same_connections : Connections → Connections → Bool
same_connections disconnected disconnected = true
same_connections disconnected some_connected = false
same_connections disconnected all_connected = false
same_connections some_connected disconnected = false
same_connections some_connected some_connected = true
same_connections some_connected all_connected = false
same_connections all_connected disconnected = false
same_connections all_connected some_connected = false
same_connections all_connected all_connected = true

-- `is_self` is `esb_link_pipe_is_self`.
module _ (is_self : ℕ → Bool) where
  -- The loop of `central_connections_status`, its two counts.
  unfoldable pub count_connected : ℕ → List PipeState → ℕ × ℕ
  count_connected pipe [] = (0, 0)
  count_connected pipe (p ∷ ps) =
      let (total, connected) = count_connected (suc pipe) ps in
      if is_self pipe
      then (total, connected)
      else (total + 1, if p.connected then connected + 1 else connected)

  unfoldable pub central_connections_status : List PipeState → Connections
  unfolding count_connected
  central_connections_status ps =
      let (total, connected) = count_connected 0 ps in
      if connected == 0
      then disconnected
      else if ltb connected total
      then some_connected
      else all_connected

  module _ (peripheral_timeout_ms : ℕ) (v : PipeView) where
    unfoldable pub peer_active : ℕ → Bool
    peer_active pipe = leb (v.quiet_ms pipe) peripheral_timeout_ms && not (v.wire_down pipe)

    -- The part of a round for a pipe that was heard.
    unfoldable pub check_heard : ℕ → PipeState → List Call × PipeState
    unfolding peer_active release_stale_pipe
    check_heard pipe p =
        if peer_active pipe
        then ([], record p { stale = false })
        else if not p.stale
        then release_stale_pipe pipe p
        else ([], p)

    unfoldable pub note_connected : ℕ → PipeState → List Call × PipeState
    note_connected pipe p =
        let connected = v.heard pipe && not p.stale in
        if not (same_bool connected p.connected)
        then (peripheral_changed pipe connected ∷ [], record p { connected = connected })
        else ([], p)

    -- A round of the loop of `staleness_work_fn`.
    unfoldable pub check_pipe : ℕ → PipeState → List Call × PipeState
    unfolding check_heard note_connected
    check_pipe pipe p =
        let (released, checked) = if v.heard pipe then check_heard pipe p else ([], p) in
        let (told, after) = note_connected pipe checked in
        if is_self pipe then ([], p) else (released ++ told, after)

    unfoldable pub check_pipes : ℕ → List PipeState → List Call × List PipeState
    unfolding check_pipe
    check_pipes pipe [] = ([], [])
    check_pipes pipe (p ∷ ps) =
        let (calls, after) = check_pipe pipe p in
        let (later, rest) = check_pipes (suc pipe) ps in (calls ++ later, after ∷ rest)

    -- `staleness_work_fn`, with the status callback set if `callback`; the second part is
    -- `last_connections`.
    unfoldable pub staleness_work :
        Bool → List PipeState → Connections → List Call × List PipeState × Connections
    unfolding check_pipes central_connections_status
    staleness_work callback ps last_connections =
        let (calls, after) = check_pipes 0 ps in
        let connections = central_connections_status after in
        if not (same_connections connections last_connections)
        then (
          calls ++ (if callback then status_changed connections ∷ [] else []),
          after,
          connections,
        )
        else (calls, after, last_connections)
