-- ===== src/Purple/Blindness.antt =====
-- What a simulation does not look at.
use aegis_edr.Prelude.{◌≡◌, refl, pos, List, [], ◌∷◌, Bool, string_eq, map}
use aegis_edr.Dict.{get-put_self}
use aegis_edr.Channel.{Channel}
use aegis_edr.Telemetry.{RawEvent}
use aegis_edr.Scoring.{Float64, Alert}
use aegis_edr.Detect.{DetectionStage}
use aegis_edr.Purple.{
  Scenario, Framework, register_scenario, simulated_event, Simulation, simulate, run_simulation,
}

-- The raw event without its hash, its file and its connection.
abbrev pub strip : RawEvent → RawEvent
strip raw = record raw {
  sha256 = "";
  file_path = "";
  file_action = "";
  protocol = "";
  local_ip = "";
  local_port = pos 0;
  remote_ip = "";
  remote_port = pos 0;
}

abbrev pub strip_scenario : Scenario → Scenario
strip_scenario s = record s { trigger_events = map strip s.trigger_events }

simulated-strip : (raw : RawEvent) → simulated_event (strip raw) ≡ simulated_event raw
unfolding simulated_event
simulated-strip raw = refl

module _ (f : Float64) where
  open f use {Real}

  simulate-strip :
      (stages : List (DetectionStage Real)) (raws : List RawEvent) (sim : Simulation f)
      → simulate f stages (map strip raws) sim ≡ simulate f stages raws sim
  unfolding simulate simulated_event
  simulate-strip stages [] sim = refl
  simulate-strip stages (raw ∷ raws) sim = simulate-strip stages raws _

  -- Whatever stages a pipeline has, a scenario gives the same result and the same alerts without
  -- the hashes, files and connections of its events: no stage can detect it by them.
  pub run_simulation_blind :
      (fw : Framework) (s : Scenario) (stages : List (DetectionStage Real))
      (c : Channel (Alert Real))
      → run_simulation f (register_scenario fw (strip_scenario s)) s.id stages c
        ≡ run_simulation f (register_scenario fw s) s.id stages c
  unfolding run_simulation register_scenario
  run_simulation_blind fw s stages c =
      let start : Simulation f = record {
        detected = Bool.false;
        matched_rules = [];
        alerts_channel = c;
      } in
      rw
        (
          run_simulation,
          register_scenario,
          get-put_self fw s.id (strip_scenario s),
          get-put_self fw s.id s,
          simulate-strip stages s.trigger_events start,
        )
        refl
