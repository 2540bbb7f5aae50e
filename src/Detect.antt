-- ===== src/Detect.antt =====
-- internal/detect/pipeline/pipeline.go: the stages that look at one event, in a fixed order. The
-- alert stages of a pipeline share one channel. Severities, weights and thresholds are float64.
pub mod Context
pub mod Alarm
mod Tests
use aegis_edr.Prelude.{
  ℕ, ◌≡◌, ℤ, pos, String, Option, none, some, List, [], ◌∷◌, ◌++◌, Bool, true, false, ◌&&◌, ◌||◌,
  leb, if◌then◌else◌, ◌==◌, string_eq, int_eq, contains, to_lower, trim_space, ◌^^◌, length,
}
use aegis_edr.Dict.{Dict, get}
use aegis_edr.Channel.{Channel, try_send}
use aegis_edr.Telemetry.{Event}
use aegis_edr.Scoring.{Float64, EngineResult, Alert, calculate_compound_score, generate_alert}

pub record DetectionContext (Real : Type 0) : Type 0 where
  pub engine_results : List (EngineResult Real)
  pub matches : List String
  pub alert_triggered : Bool
  pub alert_detail : Alert Real

pub data DetectionStage (Real : Type 0) : Type 0 where
  normalizer behavior_analysis correlation alert : DetectionStage Real
  heuristic : Real → DetectionStage Real
  ioc_matching : Dict String String → DetectionStage Real
  yara : Dict String Bool → DetectionStage Real
  sigma : List String → DetectionStage Real
  threat_intel : Dict String Bool → DetectionStage Real
  risk_scoring : Real → DetectionStage Real

pub stage_name : {Real : Type 0} → DetectionStage Real → String
stage_name normalizer = "Normalizer"
stage_name behavior_analysis = "BehaviorAnalysis"
stage_name correlation = "Correlation"
stage_name alert = "Alert"
stage_name (heuristic t) = "Heuristic"
stage_name (ioc_matching iocs) = "IOCMatching"
stage_name (yara rules) = "YARA"
stage_name (sigma patterns) = "Sigma"
stage_name (threat_intel indicators) = "ThreatIntelligence"
stage_name (risk_scoring t) = "RiskScoring"

-- What the stages share: the event, which the normaliser changes in place, the context, and the
-- channel of the alerts.
pub record Scan (Real : Type 0) : Type 0 where
  pub event : Event
  pub ctx : DetectionContext Real
  pub alerts_channel : Channel (Alert Real)

-- rules[key] of a map of flags.
flag : Dict String Bool → String → Bool
flag m k = elim (get m k) [ none ↦ false | some b ↦ b ]

first_pattern : String → List String → Option String
first_pattern line [] = none
first_pattern line (p ∷ ps) = if contains line p then some p else first_pattern line ps

module _ (f : Float64) where
  open f use {Real, le, hundredths}

  -- A result and the match that goes with it, at the ends of their lists.
  report : DetectionContext Real → String → ℕ → ℕ → String → String → DetectionContext Real
  report ctx name severity weight mitre text = record ctx {
    engine_results =
        ctx.engine_results
        ++ record {
          engine_name = name;
          severity = hundredths severity;
          weight = hundredths weight;
          mitre_ids = mitre ∷ [];
        }
          ∷ [];
    matches = ctx.matches ++ text ∷ [];
  }

  -- The stages that look at the event and the context.
  detect : DetectionStage Real → Event → DetectionContext Real → DetectionContext Real
  unfolding report flag first_pattern
  detect behavior_analysis e ctx =
      if e.type == "process" && e.parent_id == pos 1
      then report ctx "BehaviorAnalysis" 300 50 "T1059" "Process spawned directly by system init"
      else ctx
  detect (heuristic threshold) e ctx =
      if contains e.command_line "-nop" || contains e.command_line "-enc"
      then report ctx "Heuristic" 650 70 "T1059.001" "Anomalous command line argument detected"
      else ctx
  detect (ioc_matching iocs) e ctx = elim (get iocs e.sha256) [
    | none ↦ ctx
    | some label ↦
        report ctx "IOCMatching" 950 90 "T1204.002"
          ("Matched known malicious payload hash: " ^^ label)
  ]
  detect (yara rules) e ctx =
      if e.type == "process" && flag rules e.binary_path
      then report ctx "YARA" 800 80 "T1059" "YARA rule matched binary path signature"
      else ctx
  detect (sigma patterns) e ctx = elim (first_pattern e.command_line patterns) [
    | none ↦ ctx
    | some pat ↦ report ctx "Sigma" 700 80 "T1059" ("Sigma behavioral match: " ^^ pat)
  ]
  detect (threat_intel indicators) e ctx =
      if flag indicators e.remote_ip
      then report ctx "ThreatIntelligence" 900 90 "T1071.001"
          "Matched known malicious destination IP"
      else ctx
  detect correlation e ctx =
      if leb 2 (length ctx.engine_results)
      then report ctx "Correlation" 500 50 "T1059" "Multi-stage engine correlation detected"
      else ctx
  detect _ e ctx = ctx

  score_risk : Real → DetectionContext Real → DetectionContext Real
  score_risk threshold ctx = elim ctx.engine_results [
    | [] ↦ ctx
    | r ∷ rs ↦
        let results = r ∷ rs in
        record ctx {
          alert_detail = generate_alert f results;
          alert_triggered =
              if le threshold (calculate_compound_score f results)
              then true
              else ctx.alert_triggered;
        }
  ]

  -- Process of one stage; every stage returns the nil error.
  pub process_stage : DetectionStage Real → Scan Real → Scan Real
  unfolding detect score_risk
  process_stage normalizer s = record s {
    event = record s.event {
      binary_path = trim_space s.event.binary_path;
      sha256 = to_lower (trim_space s.event.sha256);
    };
  }
  process_stage (risk_scoring threshold) s = record s { ctx = score_risk threshold s.ctx }
  process_stage alert s =
      if s.ctx.alert_triggered
      then record s { alerts_channel = (try_send s.alerts_channel s.ctx.alert_detail).0 }
      else s
  process_stage stage s = record s { ctx = detect stage s.event s.ctx }

  pub process_stages : List (DetectionStage Real) → Scan Real → Scan Real
  process_stages [] s = s
  process_stages (stage ∷ stages) s = process_stages stages (process_stage stage s)

  pub new_context : DetectionContext Real
  new_context = record {
    engine_results = [];
    matches = [];
    alert_triggered = false;
    alert_detail = record { compound_score = hundredths 0; triggered_by = []; mitre_tags = [] };
  }

  -- Process of the pipeline, which starts from an empty context.
  pub process : List (DetectionStage Real) → Event → Channel (Alert Real) → Scan Real
  unfolding new_context
  process stages e alerts_channel =
      process_stages stages
        (record { event = e; ctx = new_context; alerts_channel = alerts_channel })
