-- ===== src/Detect/Tests.antt =====
-- Pipelines at concrete inputs, with scores in whole hundredths.
use aegis_edr.Prelude.{ℕ, Option, some, ◌≡◌, refl, List, [], ◌∷◌, ◌++◌, pos}
use aegis_edr.Channel.{Channel, make}
use aegis_edr.Telemetry.{Event}
use aegis_edr.Scoring.{Alert}
use aegis_edr.Scoring.Percent.{percent}
use aegis_edr.Detect.{
  DetectionStage, behavior_analysis, correlation, alert, heuristic, risk_scoring, process,
}
use aegis_edr.Detect.Alarm.{Alarmed, process_alarm}

abbrev encoded : Event
encoded = record {
  id = 1;
  type = "process";
  timestamp = 0;
  process_id = pos 7;
  parent_id = pos 1;
  binary_path = "/bin/sh";
  sha256 = "ab";
  command_line = "sh -enc";
  username = "u";
  file_path = "";
  file_action = "";
  protocol = "";
  local_ip = "";
  local_port = pos 0;
  remote_ip = "";
  remote_port = pos 0;
}

abbrev detectors : List (DetectionStage (Option ℕ))
detectors = behavior_analysis ∷ heuristic (some 50) ∷ correlation ∷ []

abbrev alerts : Channel (Alert (Option ℕ))
alerts = make 1

process_alarm_example :
    Alarmed percent
      (some 50)
      (process percent detectors encoded alerts)
      (process percent (detectors ++ risk_scoring (some 50) ∷ alert ∷ []) encoded alerts)
    × ((process percent detectors encoded alerts).alerts_channel ≡ alerts)
process_alarm_example =
    process_alarm percent detectors (some 50) encoded alerts (refl, (refl, (refl, tt)))
