-- ===== src/Report/Tests.antt =====
-- internal/report/report.go at a concrete report.
use aegis_edr.Prelude.{String, none, [], ◌∷◌, ◌≡◌, refl, pos}
use aegis_edr.Report.{ReportData, Outside, generate}

abbrev outside : Outside String
outside = record { marshal_indent = λ _. none; rfc3339 = λ _. ""; show_score = λ s. s }

abbrev incident : ReportData String
incident = record {
  timestamp = 0;
  title = "";
  summary = "";
  alert_count = pos 1;
  max_risk_score = "0.90";
  mitre_tags = [];
  timeline_events = "File write: /tmp/<script>" ∷ [];
  ioc_matches = [];
  cpu_usage = "1.00";
  memory_mb = 20;
  database_size_kb = pos 64;
  status = "ok";
}

-- An unknown format is an error, but the data are changed.
test_generate :
    generate outside 9 "IOC" "XML" incident
    ≡ (record incident { title = "AEGIS EDR IOC Report"; timestamp = 9 }, none)
unfolding generate
test_generate = refl
