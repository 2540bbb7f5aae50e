-- ===== src/Policy.antt =====
-- internal/policy/policy.go: the policies, their validation, and the action for a process. Scores
-- are only compared, so their type is a parameter. The mutex makes each method one step.
pub mod Validity
pub mod Chain
pub mod Cycles
pub mod Layers
pub mod Mitigation
mod Tests
use aegis_edr.Prelude.{
  ℕ, zero, suc, ℤ, String, Option, none, some, List, [], ◌∷◌, Bool, true, false, ◌||◌, not,
  if◌then◌else◌, ◌==◌, string_eq, contains, ◌^^◌,
}
use aegis_edr.Dict.{Dict, empty, get, put}

abbrev pub action_allow : String
action_allow = "Allow"

abbrev pub action_deny : String
action_deny = "Deny"

abbrev pub action_monitor : String
action_monitor = "Monitor"

abbrev pub action_audit : String
action_audit = "Audit"

abbrev pub action_ignore : String
action_ignore = "Ignore"

pub record Rule (Score : Type 0) : Type 0 where
  pub id : String
  pub name : String
  pub action : String
  pub process_path : String
  pub risk_score : Score

pub record Policy (Score : Type 0) : Type 0 where
  pub id : String
  pub parent_id : String
  pub rules : List (Rule Score)
  pub version : ℤ

-- internal/config/config.go
pub record ActionConfig : Type 0 where
  pub name : String
  pub enabled : Bool

pub record ResponseConfig (Score : Type 0) : Type 0 where
  pub auto_mitigation : Bool
  pub risk_threshold : Score
  pub actions : List ActionConfig
  pub quarantine_key : String

pub record PolicyEngine (Score : Type 0) : Type 0 where
  pub cfg : Option (ResponseConfig Score)
  pub policies : Dict String (Policy Score)
  pub active_policy_id : String

pub data PolicyError : Type 0 where
  empty_policy_id empty_rule_id empty_process_path : PolicyError
  invalid_action not_loaded : String → PolicyError

-- What `Error()` gives.
abbrev pub error_text : PolicyError → String
error_text empty_policy_id = "policy ID cannot be empty"
error_text empty_rule_id = "rule ID cannot be empty"
error_text empty_process_path = "rule process path cannot be empty"
error_text (invalid_action action) = "invalid policy action: " ^^ action
error_text (not_loaded id) = "policy " ^^ id ^^ " not loaded"

pub is_action : String → Bool
is_action a =
    a == action_allow
    || a == action_deny
    || a == action_monitor
    || a == action_audit
    || a == action_ignore

module _ {Score : Type 0} where
  pub new_policy_engine : Option (ResponseConfig Score) → PolicyEngine Score
  new_policy_engine cfg = record { cfg = cfg; policies = empty; active_policy_id = "" }

  validate_rule : Rule Score → Option PolicyError
  validate_rule r =
      if r.id == ""
      then some empty_rule_id
      else if not (is_action r.action)
      then some (invalid_action r.action)
      else if r.process_path == ""
      then some empty_process_path
      else none

  validate_rules : List (Rule Score) → Option PolicyError
  unfolding validate_rule
  validate_rules [] = none
  validate_rules (r ∷ rs) = let rest = validate_rules rs in or_else (validate_rule r) rest
    where
      or_else : Option PolicyError → Option PolicyError → Option PolicyError
      or_else none rest = rest
      or_else (some e) rest = some e

  -- `none` is the nil error.
  pub validate_policy : Policy Score → Option PolicyError
  validate_policy p = if p.id == "" then some empty_policy_id else validate_rules p.rules

  pub load_policy : PolicyEngine Score → Policy Score → PolicyEngine Score × Option PolicyError
  load_policy pe p = elim (validate_policy p) [
    | some e ↦ (pe, some e)
    | none ↦ (record pe { policies = put pe.policies p.id p }, none)
  ]

  pub set_active_policy : PolicyEngine Score → String → PolicyEngine Score × Option PolicyError
  set_active_policy pe id = elim (get pe.policies id) [
    | none ↦ (pe, some (not_loaded id))
    | some _ ↦ (record pe { active_policy_id = id }, none)
  ]

  pub first_match : List (Rule Score) → String → Option String
  first_match [] path = none
  first_match (r ∷ rs) path =
      if contains path r.process_path then some r.action else first_match rs path

  -- The recursion of `evaluateChain` goes to the parent, which may be any policy: it takes fuel, and
  -- `none` says that the fuel did not suffice.
  pub evaluate_chain : ℕ → Dict String (Policy Score) → String → String → Option String
  evaluate_chain zero policies id path = none
  evaluate_chain (suc fuel) policies id path = elim (get policies id) [
    | none ↦ some action_monitor
    | some p ↦ elim (first_match p.rules path) [
      | some a ↦ some a
      | none ↦ elim (p.parent_id == "") [
        | true ↦ some action_monitor
        | false ↦ evaluate_chain fuel policies p.parent_id path
      ]
    ]
  ]

  pub evaluate_rule : ℕ → PolicyEngine Score → String → Option String
  evaluate_rule fuel pe path =
      if pe.active_policy_id == ""
      then some action_monitor
      else evaluate_chain fuel pe.policies pe.active_policy_id path
