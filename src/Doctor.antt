-- ===== src/Doctor.antt =====
-- internal/doctor/doctor.go: the self diagnostics. What the checks ask of the system, of YAML, YARA and
-- the database are parameters; the check of the policies runs the policies' own validation.
pub mod Verdict
mod Tests
use aegis_edr.Prelude.{
  ℕ, ℤ, pos, String, Bool, true, false, not, ◌&&◌, if◌then◌else◌, Option, none, some, List, [], ◌∷◌,
  ◌++◌, ◌==◌, string_eq, int_eq, ◌^^◌, show_int,
}
use aegis_edr.Policy.{Policy, action_allow, validate_policy, error_text}
use aegis_edr.Sigma
use aegis_edr.Sigma.{add_rule, new_engine}

abbrev pub status_ok : String
status_ok = "OK"

abbrev pub status_warn : String
status_warn = "WARN"

abbrev pub status_fail : String
status_fail = "FAIL"

pub record ComponentCheck : Type 0 where
  pub name : String
  pub status : String
  pub details : String

pub record DoctorReport : Type 0 where
  pub timestamp : ℕ
  pub checks : List ComponentCheck
  pub overall : String

-- config.LoadConfig, as far as the checks read it; the error's text.
pub data LoadedConfig : Type 0 where
  refused : String → LoadedConfig
  -- Telemetry.ProcessMonitoring and Storage.Path
  loaded : Bool → String → LoadedConfig

-- What the checks find; a text is that of an error.
pub record System : Type 0 where
  pub now : ℕ
  pub has_logger : Bool
  pub config : LoadedConfig
  -- sql.Open and the ping, for a path.
  pub open_error : String → Option String
  pub ping_error : String → Option String
  -- yara.NewEngine and the scan.
  pub yara_error : Option String
  pub scan_error : Option String
  -- yaml.Unmarshal of a Sigma rule, and the text of its error.
  pub unmarshal : String → Option Sigma.Rule
  pub unmarshal_error : String → String
  pub uid : ℤ
  pub write_error : Option String
  -- The megabytes in use and those of the system, with two digits after the point.
  pub allocated : String
  pub sys : String
  -- Does https://github.com answer in two seconds?
  pub is_online : Bool

append_check : DoctorReport → String → String → String → DoctorReport
append_check r name status details = record r {
  checks = r.checks ++ record { name = name; status = status; details = details } ∷ [];
}

-- The policy of the check, in which every field but these is zero.
abbrev pub doctor_policy : Policy ℕ
doctor_policy = record {
  id = "doctor-test";
  parent_id = "";
  rules =
      record {
        id = "r1";
        name = "Test rule";
        action = action_allow;
        process_path = "/bin/sh";
        risk_score = 0;
      }
      ∷ [];
  version = pos 0;
}

abbrev pub doctor_rule : String
doctor_rule =
    "\ntitle: Test Rule\nlogsource:\n  category: process_creation\ndetection:\n  selection:\n    Image: '/bin/sh'\n  condition: selection\n"

module _ (system : System) where
  open system use {
    has_logger, config, open_error, ping_error, yara_error, scan_error, unmarshal, unmarshal_error,
    uid, write_error, allocated, sys, is_online,
  }

  check_logger : DoctorReport → DoctorReport
  check_logger r =
      if has_logger
      then append_check r "Logger" status_ok "Global logger initialized successfully"
      else append_check r "Logger" status_fail "Global logger is nil"

  check_config : DoctorReport → DoctorReport
  check_config r = elim config [
    | refused err ↦
        append_check r "Configuration" status_fail ("Failed to load configs/aegis.yaml: " ^^ err)
    | loaded process_monitoring _ ↦ append_check r "Configuration" status_ok (
        "Loaded configuration successfully. Process monitoring: "
        ^^ (if process_monitoring then "true" else "false"))
  ]

  pub db_path : String
  db_path = elim config [
    | refused _ ↦ "telemetry.db"
    | loaded _ path ↦ if path == "" then "telemetry.db" else path
  ]

  check_database : DoctorReport → DoctorReport
  check_database r = elim (open_error db_path) [
    | some err ↦ append_check r "Database" status_fail ("Failed to open sqlite db file: " ^^ err)
    | none ↦ elim (ping_error db_path) [
      | some err ↦ append_check r "Database" status_fail ("Failed to ping sqlite database: " ^^ err)
      | none ↦ append_check r "Database" status_ok "SQLite database connections OK"
    ]
  ]

  check_policies : DoctorReport → DoctorReport
  check_policies r = elim (validate_policy doctor_policy) [
    | some err ↦
        append_check r "Policies" status_fail
          ("Policy Engine validation checks failed: " ^^ error_text err)
    | none ↦ append_check r "Policies" status_ok "Policy Engine rule mapping validation operational"
  ]

  check_yara : DoctorReport → DoctorReport
  check_yara r = elim yara_error [
    | some err ↦ append_check r "YARA" status_fail ("Failed to initialize YARA scanner: " ^^ err)
    | none ↦ elim scan_error [
      | some err ↦ append_check r "YARA" status_fail ("YARA scanning failed: " ^^ err)
      | none ↦ append_check r "YARA" status_ok "YARA signature scanning engine fully operational"
    ]
  ]

  check_sigma : DoctorReport → DoctorReport
  check_sigma r =
      if (add_rule unmarshal new_engine doctor_rule).1
      then append_check r "Sigma" status_ok "Sigma rule loading and syntax parser operational"
      else append_check r "Sigma" status_fail
          ("Failed to register Sigma rule parser: " ^^ unmarshal_error doctor_rule)

  check_permissions : DoctorReport → DoctorReport
  check_permissions r =
      if uid == pos 0
      then append_check r "Permissions" status_ok "Running with administrative root permissions"
      else append_check r "Permissions" status_warn (
          "Agent running with non-root UID "
          ^^ show_int uid
          ^^ ". Host containment may be unavailable")

  check_filesystem : DoctorReport → DoctorReport
  check_filesystem r = elim write_error [
    | some err ↦ append_check r "Filesystem" status_fail ("Filesystem write test failed: " ^^ err)
    | none ↦ append_check r "Filesystem" status_ok "Permissions to read/write tmp structures OK"
  ]

  check_memory : DoctorReport → DoctorReport
  check_memory r =
      append_check r "Memory" status_ok
        ("Memory Footprint: Allocated: " ^^ allocated ^^ " MB | Sys: " ^^ sys ^^ " MB")

  check_plugins : DoctorReport → DoctorReport
  check_plugins r = append_check r "Plugins" status_ok "SDK dynamic plugin boundaries OK"

  check_threat_intel : DoctorReport → DoctorReport
  check_threat_intel r = append_check r "Threat Intel" status_ok "Indicators caching maps verified"

  check_updates : DoctorReport → DoctorReport
  check_updates r =
      if is_online
      then append_check r "Updates" status_ok "Connectivity to remote updates servers OK"
      else append_check r "Updates" status_warn
          "Network updates server unreachable (running offline mode fallback)"

  -- The twelve checks, in the order of Run.
  all_checks : DoctorReport → DoctorReport
  all_checks r = check_updates (
      check_threat_intel (
        check_plugins (
          check_memory (
            check_filesystem (
              check_permissions (
                check_sigma (
                  check_yara
                    (check_policies (check_database (check_config (check_logger r)))))))))))

-- The loop over the checks, which a failure leaves; the status so far.
pub overall_of : String → List ComponentCheck → String
overall_of overall [] = overall
overall_of overall (check ∷ checks) =
    let warned = overall_of status_warn checks in
    let same = overall_of overall checks in
    if check.status == status_fail
    then status_fail
    else if check.status == status_warn && not (overall == status_fail)
    then warned
    else same

-- Run, whose error is always nil.
pub run : System → DoctorReport
unfolding all_checks
run system =
    let r =
      all_checks system (record { timestamp = system.now; checks = []; overall = status_ok }) in
    record r { overall = overall_of r.overall r.checks }

abbrev pub status_symbol : ComponentCheck → String
status_symbol check =
    if check.status == status_fail
    then "[✗]"
    else if check.status == status_warn
    then "[!]"
    else "[✓]"
