-- ===== src/Purple.antt =====
-- internal/purple/purple.go: scenarios of attacks that are run through a detection pipeline. The
-- measurements of time, processor and memory in a result are not modelled, nor is the report, which
-- is a text.
pub mod Blindness
mod Tests
use aegis_edr.Prelude.{
  is_nonempty, ℕ, ℤ, pos, String, Option, none, some, List, [], ◌∷◌, ◌++◌, Bool, true, false,
  if◌then◌else◌, string_eq, ◌&&◌, ◌||◌, to_lower, map,
}
use aegis_edr.Dict.{Dict, empty, get, put}
use aegis_edr.Channel.{Channel}
use aegis_edr.Telemetry.{RawEvent, Event}
use aegis_edr.Scoring.{Float64, EngineResult, Alert}
use aegis_edr.Detect.{DetectionStage, process}

pub record Scenario : Type 0 where
  pub id : String
  pub name : String
  pub mitre_ids : List String
  pub description : String
  pub trigger_events : List RawEvent

-- The coverage score is a number of percent.
pub record ValidationResult : Type 0 where
  pub scenario_id : String
  pub detected : Bool
  pub matched_rules : List String
  pub mitre_coverage_score : ℕ

abbrev pub Framework : Type 0
Framework = Dict String Scenario

unfoldable pub new_framework : Framework
new_framework = empty

unfoldable pub register_scenario : Framework → Scenario → Framework
register_scenario f s = put f s.id s

-- The event that the simulation makes of a raw one: the fields that it does not set stay zero.
unfoldable pub simulated_event : RawEvent → Event
simulated_event raw = record {
  id = 0;
  type = to_lower raw.type;
  timestamp = raw.timestamp;
  process_id = raw.process_id;
  parent_id = raw.parent_id;
  binary_path = raw.binary_path;
  sha256 = "";
  command_line = raw.command_line;
  username = raw.username;
  file_path = "";
  file_action = "";
  protocol = "";
  local_ip = "";
  local_port = pos 0;
  remote_ip = "";
  remote_port = pos 0;
}

module _ (f : Float64) where
  open f use {Real}

  -- The loop's variables, and the channel that the alerts of the pipeline go to.
  pub record Simulation : Type 0 where
    pub detected : Bool
    pub matched_rules : List String
    pub alerts_channel : Channel (Alert Real)

  engine_names : List (EngineResult Real) → List String
  engine_names results = map (λ r. r.engine_name) results

  -- The loop over the events; a pipeline's error is always nil.
  unfoldable pub simulate : List (DetectionStage Real) → List RawEvent → Simulation → Simulation
  unfolding engine_names
  simulate stages [] sim = sim
  simulate stages (raw ∷ raws) sim =
      let res = process f stages (simulated_event raw) sim.alerts_channel in
      simulate stages raws (record {
        detected = res.ctx.alert_triggered || sim.detected;
        matched_rules = sim.matched_rules ++ engine_names res.ctx.engine_results;
        alerts_channel = res.alerts_channel;
      })

  -- RunSimulation; `none` is the error that there is no such scenario.
  unfoldable pub run_simulation :
      Framework
      → String
      → List (DetectionStage Real)
      → Channel (Alert Real)
      → Option ValidationResult × Channel (Alert Real)
  run_simulation fw id stages alerts_channel = elim (get fw id) [
    | none ↦ (none, alerts_channel)
    | some s ↦
        let sim =
          simulate stages s.trigger_events
            (record { detected = false; matched_rules = []; alerts_channel = alerts_channel }) in
        (
          some (record {
            scenario_id = s.id;
            detected = sim.detected;
            matched_rules = sim.matched_rules;
            mitre_coverage_score = if sim.detected && is_nonempty s.mitre_ids then 100 else 0;
          }),
          sim.alerts_channel,
        )
  ]
