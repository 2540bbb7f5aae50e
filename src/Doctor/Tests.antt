-- ===== src/Doctor/Tests.antt =====
-- internal/doctor/doctor.go at a concrete system: an agent of an ordinary user.
use aegis_edr.Prelude.{◌≡◌, pos, true, none, some}
use aegis_edr.Sigma
use aegis_edr.Sigma.Tests.{spawning}
use aegis_edr.Doctor.{System, loaded, run, status_warn}
use aegis_edr.Doctor.Verdict.{run_verdict}

abbrev laptop : System
laptop = record {
  now = 7;
  has_logger = true;
  config = loaded true "telemetry.db";
  open_error = λ _. none;
  ping_error = λ _. none;
  yara_error = none;
  scan_error = none;
  unmarshal = λ _. some spawning;
  unmarshal_error = λ _. "";
  uid = pos 1000;
  write_error = none;
  allocated = "1.00";
  sys = "2.00";
  is_online = true;
}

run_verdict_example : (run laptop).overall ≡ status_warn
unfolding Sigma.add_rule
run_verdict_example = run_verdict laptop
