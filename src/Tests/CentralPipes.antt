-- ===== src/Tests/CentralPipes.antt =====
-- src/central.c.
use zmk_feature_split_esb.Prelude.{
  ℕ, Bool, true, false, ◌==◌, if◌then◌else◌, List, [], ◌∷◌, replicate,
}
use zmk_feature_split_esb.Prelude.Int.{pos}
use zmk_feature_split_esb.CentralPipes.{disconnected, PipeState}
use zmk_feature_split_esb.CentralPipes.Inbound.{ZmkEvents, event}
use zmk_feature_split_esb.CentralPipes.Staleness.{PipeView}
use zmk_feature_split_esb.CentralPipes.Shown.{Listener}
use zmk_feature_split_esb.CentralPipes.Shown.Runs.{CentralStep, checked, taken}
use zmk_feature_split_esb.Tests.CentralInput.{pipe}

-- The pipe as after boot, and a key held.
abbrev pub pipe_state : PipeState
pipe_state = record {
  tracked = 1 ∷ replicate 7 0;
  input = pipe;
  sensor_tracks = [];
  battery_level = 255;
  stale = false;
  connected = false;
}

abbrev pub zmk_events : ZmkEvents
zmk_events = record {
  key_type = 0;
  battery_type = 3;
  sensor_type = 1;
  key_of = λ bytes. (5, true);
  battery_of = λ bytes. 80;
  sensor_of = λ bytes. (0, pos 15, pos 0);
  battery_reporting = true;
  battery_fetching = false;
}

-- Pipe 1 has been silent for long.
abbrev view : PipeView
view = record {
  quiet_ms = λ k. if k == 1 then 9000 else 20;
  heard = λ k. true;
  wire_down = λ k. false;
}

abbrev no_self : ℕ → Bool
no_self k = false

abbrev listener : Listener
listener = record { connected = λ k. false; battery = λ k. 255; status = disconnected }

abbrev steps : List CentralStep
steps = taken 0 (event 3 []) ∷ checked view ∷ taken 1 (event 0 []) ∷ []
