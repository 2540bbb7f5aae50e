-- ===== src/Purple/Tests.antt =====
-- A simulation at concrete inputs.
use aegis_edr.Prelude.{Option, some, ℕ, ◌≡◌, pos, List, [], ◌∷◌, true, string_eq}
use aegis_edr.Channel.{make}
use aegis_edr.Scoring.Percent.{percent}
use aegis_edr.Dict.{empty, put}
use aegis_edr.Detect.{DetectionStage, threat_intel, risk_scoring}
use aegis_edr.Purple.{Scenario, new_framework, register_scenario, run_simulation}
use aegis_edr.Purple.Blindness.{strip_scenario, run_simulation_blind}

-- A connection to a host that the pipeline knows as malicious.
abbrev beacon : Scenario
beacon = record {
  id = "S";
  name = "beacon";
  mitre_ids = "T1071" ∷ [];
  description = "";
  trigger_events =
      record {
        type = "network";
        timestamp = 1;
        process_id = pos 7;
        parent_id = pos 2;
        binary_path = "/bin/sh";
        sha256 = "";
        command_line = "sh";
        username = "u";
        file_path = "";
        file_action = "";
        protocol = "tcp";
        local_ip = "";
        local_port = pos 0;
        remote_ip = "6.6.6.6";
        remote_port = pos 443;
      }
      ∷ [];
}

abbrev stages : List (DetectionStage (Option ℕ))
stages = threat_intel (put empty "6.6.6.6" true) ∷ risk_scoring (some 50) ∷ []

run_simulation_blind_example :
    run_simulation percent
      (register_scenario new_framework (strip_scenario beacon))
      "S"
      stages
      (make 1)
    ≡ run_simulation percent (register_scenario new_framework beacon) "S" stages (make 1)
run_simulation_blind_example = run_simulation_blind percent new_framework beacon stages (make 1)
