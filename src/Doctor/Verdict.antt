-- ===== src/Doctor/Verdict.antt =====
-- internal/doctor/doctor.go: what the overall status says of the checks.
use aegis_edr.Prelude.{
  pos, String, Bool, true, false, not, ◌||◌, if◌then◌else◌, Option, none, some, List, [], ◌∷◌, any,
  any-append_one, ◌==◌, string_eq, int_eq, ◌≡◌, refl, ap, ◌∙◌, arith,
}
use aegis_edr.Policy.Validity.{validate_policy_allow}
use aegis_edr.Policy.{validate_policy}
use aegis_edr.Sigma.{add_rule, new_engine}
use aegis_edr.Doctor.{
  System, LoadedConfig, refused, loaded, ComponentCheck, DoctorReport, status_ok, status_warn,
  status_fail, append_check, check_logger, check_config, check_database, check_policies, check_yara,
  check_sigma, check_permissions, check_filesystem, check_memory, check_plugins, check_threat_intel,
  check_updates, all_checks, overall_of, run, db_path, doctor_rule, doctor_policy,
}

abbrev is_error : Option String → Bool
is_error none = false
is_error (some _) = true

abbrev is_refused : LoadedConfig → Bool
is_refused (refused _) = true
is_refused (loaded _ _) = false

-- Something that the agent cannot do without is missing.
abbrev pub is_broken : System → Bool
is_broken s =
    not s.has_logger
    || is_refused s.config
    || is_error (s.open_error (db_path s))
    || is_error (s.ping_error (db_path s))
    || is_error s.yara_error
    || is_error s.scan_error
    || not (add_rule s.unmarshal new_engine doctor_rule).1
    || is_error s.write_error

abbrev pub is_limited : System → Bool
is_limited s = not (s.uid == pos 0) || not s.is_online

policies_valid : validate_policy doctor_policy ≡ none
policies_valid = validate_policy_allow doctor_policy _ refl refl refl refl refl

-- Is there a check with this status?
has_status : String → DoctorReport → Bool
has_status status r = any (λ check. check.status == status) r.checks

-- The worst status of the checks.
worst : DoctorReport → String
worst r =
    if has_status status_fail r
    then status_fail
    else if has_status status_warn r
    then status_warn
    else status_ok

overall_of-ok :
    (r : DoctorReport) (checks : List ComponentCheck)
    → (overall_of status_ok checks ≡ (
        if any (λ check. check.status == status_fail) checks
        then status_fail
        else if any (λ check. check.status == status_warn) checks
        then status_warn
        else status_ok))
      × (overall_of status_warn checks ≡ (
          if any (λ check. check.status == status_fail) checks then status_fail else status_warn))
unfolding overall_of
overall_of-ok r [] = (refl, refl)
overall_of-ok r (check ∷ checks) =
    let rest = overall_of-ok r checks in
    (ground (arith, rest.0, rest.1), ground (arith, rest.0, rest.1))

-- What a check adds to the report.
Adds : DoctorReport → DoctorReport → Bool → Bool → Type 0
Adds r r' fails warns =
    (has_status status_fail r' ≡ (has_status status_fail r || fails))
    × (has_status status_warn r' ≡ (has_status status_warn r || warns))
    × (r'.overall ≡ r.overall)

has_status-append_check :
    (status : String) (r : DoctorReport) (name given details : String)
    → has_status status (append_check r name given details)
      ≡ (has_status status r || given == status)
unfolding has_status append_check
has_status-append_check status r name given details = any-append_one _ r.checks _

overall-append_check :
    (r : DoctorReport) (name given details : String)
    → (append_check r name given details).overall ≡ r.overall
unfolding append_check
overall-append_check r name given details = refl

module _ (s : System) where
  logger-Adds : (r : DoctorReport) → Adds r (check_logger s r) (not s.has_logger) (false)
  unfolding Adds check_logger
  logger-Adds r = (
    grind (arith, has_status-append_check),
    grind (arith, has_status-append_check),
    grind (arith, overall-append_check),
  )

  config-Adds : (r : DoctorReport) → Adds r (check_config s r) (is_refused s.config) (false)
  unfolding Adds check_config
  config-Adds r = (
    grind (arith, has_status-append_check),
    grind (arith, has_status-append_check),
    grind (arith, overall-append_check),
  )

  database-Adds :
      (r : DoctorReport)
      → Adds r
          (check_database s r)
          (is_error (s.open_error (db_path s)) || is_error (s.ping_error (db_path s)))
          (false)
  unfolding Adds check_database
  database-Adds r = (
    grind (arith, has_status-append_check),
    grind (arith, has_status-append_check),
    grind (arith, overall-append_check),
  )

  policies-Adds : (r : DoctorReport) → Adds r (check_policies s r) (false) (false)
  unfolding Adds check_policies
  policies-Adds r = (
    grind (arith, has_status-append_check, policies_valid),
    grind (arith, has_status-append_check, policies_valid),
    grind (arith, overall-append_check, policies_valid),
  )

  yara-Adds :
      (r : DoctorReport)
      → Adds r (check_yara s r) (is_error s.yara_error || is_error s.scan_error) (false)
  unfolding Adds check_yara
  yara-Adds r = (
    grind (arith, has_status-append_check),
    grind (arith, has_status-append_check),
    grind (arith, overall-append_check),
  )

  sigma-Adds :
      (r : DoctorReport)
      → Adds r (check_sigma s r) (not (add_rule s.unmarshal new_engine doctor_rule).1) (false)
  unfolding Adds check_sigma
  sigma-Adds r = (
    grind (arith, has_status-append_check),
    grind (arith, has_status-append_check),
    grind (arith, overall-append_check),
  )

  permissions-Adds :
      (r : DoctorReport) → Adds r (check_permissions s r) (false) (not (s.uid == pos 0))
  unfolding Adds check_permissions
  permissions-Adds r = (
    grind (arith, has_status-append_check),
    grind (arith, has_status-append_check),
    grind (arith, overall-append_check),
  )

  filesystem-Adds :
      (r : DoctorReport) → Adds r (check_filesystem s r) (is_error s.write_error) (false)
  unfolding Adds check_filesystem
  filesystem-Adds r = (
    grind (arith, has_status-append_check),
    grind (arith, has_status-append_check),
    grind (arith, overall-append_check),
  )

  memory-Adds : (r : DoctorReport) → Adds r (check_memory s r) (false) (false)
  unfolding Adds check_memory
  memory-Adds r = (
    grind (arith, has_status-append_check),
    grind (arith, has_status-append_check),
    grind (arith, overall-append_check),
  )

  plugins-Adds : (r : DoctorReport) → Adds r (check_plugins s r) (false) (false)
  unfolding Adds check_plugins
  plugins-Adds r = (
    grind (arith, has_status-append_check),
    grind (arith, has_status-append_check),
    grind (arith, overall-append_check),
  )

  threat_intel-Adds : (r : DoctorReport) → Adds r (check_threat_intel s r) (false) (false)
  unfolding Adds check_threat_intel
  threat_intel-Adds r = (
    grind (arith, has_status-append_check),
    grind (arith, has_status-append_check),
    grind (arith, overall-append_check),
  )

  updates-Adds : (r : DoctorReport) → Adds r (check_updates s r) (false) (not s.is_online)
  unfolding Adds check_updates
  updates-Adds r = (
    grind (arith, has_status-append_check),
    grind (arith, has_status-append_check),
    grind (arith, overall-append_check),
  )

all_checks-Adds :
    (s : System) (r : DoctorReport) → Adds r (all_checks s r) (is_broken s) (is_limited s)
unfolding all_checks Adds
all_checks-Adds s r =
    let a0 = logger-Adds s r in
    let r0 = check_logger s r in
    let a1 = config-Adds s r0 in
    let r1 = check_config s r0 in
    let a2 = database-Adds s r1 in
    let r2 = check_database s r1 in
    let a3 = policies-Adds s r2 in
    let r3 = check_policies s r2 in
    let a4 = yara-Adds s r3 in
    let r4 = check_yara s r3 in
    let a5 = sigma-Adds s r4 in
    let r5 = check_sigma s r4 in
    let a6 = permissions-Adds s r5 in
    let r6 = check_permissions s r5 in
    let a7 = filesystem-Adds s r6 in
    let r7 = check_filesystem s r6 in
    let a8 = memory-Adds s r7 in
    let r8 = check_memory s r7 in
    let a9 = plugins-Adds s r8 in
    let r9 = check_plugins s r8 in
    let a10 = threat_intel-Adds s r9 in
    let r10 = check_threat_intel s r9 in
    let a11 = updates-Adds s r10 in
    (
      ground (arith, a0.0, a1.0, a2.0, a3.0, a4.0, a5.0, a6.0, a7.0, a8.0, a9.0, a10.0, a11.0),
      ground (arith, a0.1, a1.1, a2.1, a3.1, a4.1, a5.1, a6.1, a7.1, a8.1, a9.1, a10.1, a11.1),
      ground (arith, a0.2, a1.2, a2.2, a3.2, a4.2, a5.2, a6.2, a7.2, a8.2, a9.2, a10.2, a11.2),
    )

no_checks : System → DoctorReport
no_checks s = record { timestamp = s.now; checks = []; overall = status_ok }

overall_of-worst : (r : DoctorReport) → overall_of status_ok r.checks ≡ worst r
unfolding worst has_status
overall_of-worst r = (overall_of-ok r r.checks).0

no_checks_ok : (s : System) (status : String) → has_status status (no_checks s) ≡ false
unfolding has_status no_checks
no_checks_ok s status = refl

overall-all_checks : (s : System) → (all_checks s (no_checks s)).overall ≡ status_ok
unfolding Adds no_checks
overall-all_checks s = (all_checks-Adds s (no_checks s)).2

worst-all_checks :
    (s : System)
    → worst (all_checks s (no_checks s))
      ≡ (if is_broken s then status_fail else if is_limited s then status_warn else status_ok)
unfolding worst Adds
worst-all_checks s =
    let adds = all_checks-Adds s (no_checks s) in
    ground (arith, adds.0, adds.1, no_checks_ok s status_fail, no_checks_ok s status_warn)

-- The overall status is FAIL where a part that the agent needs is broken, else WARN where it does not
-- run as root or the server of the updates does not answer, else OK.
pub run_verdict :
    (s : System)
    → (run s).overall
      ≡ (if is_broken s then status_fail else if is_limited s then status_warn else status_ok)
unfolding run no_checks
run_verdict s =
    let r = all_checks s (no_checks s) in
    ap (λ status. overall_of status r.checks) (overall-all_checks s)
    ∙ overall_of-worst r
    ∙ worst-all_checks s
