-- ===== src/Policy/Mitigation.antt =====
-- EvaluateAndMitigate. What kills, isolates and quarantines is a parameter: it acts on a world and
-- may fail. The messages of the results are not spelled out; their cases are.
pub mod Plan
mod Tests
use aegis_edr.Prelude.{
  ℕ, ◌≡◌, refl, ◌⊎◌, inl, inr, ℤ, pos, String, Option, none, some, List, [], ◌∷◌, ◌++◌, Bool, true,
  false, not, ◌||◌, arith, if◌then◌else◌, ◌==◌, string_eq, map, All, Bool-cases, Option-cases,
}
use text.Mathlib.TextEquality.{eq_iff}
use mathlib.Core.List.{append_assoc}
use aegis_edr.Dict.{Dict, get}
use aegis_edr.Policy.{ActionConfig, ResponseConfig, PolicyEngine}

-- The values of `map[string]interface{}` that the code tells apart.
pub data Value : Type 0 where
  int_value : ℤ → Value
  string_value : String → Value
  other_value : Value

-- internal/response: KillTree, IsolateHost and QuarantineFile with its key, source and destination.
pub record Responders : Type 1 where
  pub World : Type 0
  pub Failure : Type 0
  pub kill_tree : ℤ → World → World × Option Failure
  pub isolate_host : World → World × Option Failure
  pub quarantine_file : String → String → String → World → World × Option Failure

-- The messages; `kill_failed` and the like are errors.
pub data Report (Failure : Type 0) : Type 0 where
  mitigation_disabled below_threshold no_matching_actions : Report Failure
  executed : List String → Report Failure
  kill_failed isolate_failed quarantine_failed : Failure → Report Failure

-- The message for `actionsExecuted` after the loop.
pub report : {Failure : Type 0} → List String → Report Failure
report [] = no_matching_actions
report (a ∷ rest) = executed (a ∷ rest)

-- A responder's error ends the loop; otherwise the loop goes on in the world that it left.
abbrev pub proceed :
    {World Failure : Type 0}
    → World × Option Failure
    → (Failure → Report Failure)
    → (World → World × Report Failure)
    → World × Report Failure
proceed (w, some e) failed rest = (w, failed e)
proceed (w, none) failed rest = rest w

abbrev pub fallback_key : String
fallback_key = "12345678901234567890123456789012"

abbrev pub quarantine_dir : String
quarantine_dir = "/var/lib/aegis/quarantine"

pub int_of : Option Value → Option ℤ
int_of (some (int_value n)) = some n
int_of _ = none

pub string_of : Option Value → Option String
string_of (some (string_value s)) = some s
string_of _ = none

module _ (responders : Responders) where
  open responders use {World, Failure, kill_tree, isolate_host, quarantine_file}

  -- The body of the loop: `skip` is a `continue`, `next` goes on with one more name noted.
  pub act :
      Dict String Value
      → ActionConfig
      → World
      → World × Report Failure
      → (String → World → World × Report Failure)
      → World × Report Failure
  act details action w skip next =
      if not action.enabled
      then skip
      else if action.name == "kill"
      then elim (int_of (get details "pid")) [
        | none ↦ skip
        | some pid ↦ proceed (kill_tree pid w) kill_failed (next "kill")
      ]
      else if action.name == "isolate"
      then proceed (isolate_host w) isolate_failed (next "isolate")
      else if action.name == "quarantine"
      then elim (string_of (get details "filepath")) [
        | none ↦ skip
        | some path ↦
            proceed (quarantine_file fallback_key path quarantine_dir w) quarantine_failed
              (next "quarantine")
      ]
      else skip

  -- The loop over the configured actions; `done` is `actionsExecuted`.
  pub mitigate :
      Dict String Value → List ActionConfig → List String → World → World × Report Failure
  mitigate details [] done w = (w, report done)
  mitigate details (action ∷ actions) done w =
      act details action w (mitigate details actions done w)
        (λ name. mitigate details actions (done ++ name ∷ []))

  pub evaluate_and_mitigate :
      {Score : Type 0}
      → (Score → Score → Bool)
      → PolicyEngine Score
      → Score
      → Dict String Value
      → World
      → World × Report Failure
  evaluate_and_mitigate less pe score details w = elim pe.cfg [
    | none ↦ (w, mitigation_disabled)
    | some cfg ↦
        if not cfg.auto_mitigation
        then (w, mitigation_disabled)
        else if less score cfg.risk_threshold
        then (w, below_threshold)
        else mitigate details cfg.actions [] w
  ]

-- The responses that a configuration asks for.
pub data Task : Type 0 where
  kill : ℤ → Task
  isolate : Task
  quarantine : String → Task

-- What one configured action asks for: nothing if it is disabled or unknown, or if the detail that
-- it needs is missing or of another type.
pub task_of : Dict String Value → ActionConfig → Option Task
task_of details action =
    if not action.enabled
    then none
    else if action.name == "kill"
    then elim (int_of (get details "pid")) [ none ↦ none | some pid ↦ some (kill pid) ]
    else if action.name == "isolate"
    then some isolate
    else if action.name == "quarantine"
    then elim (string_of (get details "filepath")) [
      | none ↦ none
      | some path ↦ some (quarantine path)
    ]
    else none

pub plan : Dict String Value → List ActionConfig → List Task
plan details [] = []
plan details (action ∷ actions) =
    let rest = plan details actions in
    elim (task_of details action) [ none ↦ rest | some t ↦ t ∷ rest ]

pub task_name : Task → String
task_name (kill pid) = "kill"
task_name isolate = "isolate"
task_name (quarantine path) = "quarantine"

module _ (responders : Responders) where
  open responders use {World, Failure, kill_tree, isolate_host, quarantine_file}

  pub perform : Task → World → World × Option Failure
  perform (kill pid) w = kill_tree pid w
  perform isolate w = isolate_host w
  perform (quarantine path) w = quarantine_file fallback_key path quarantine_dir w

  pub blame : Task → Failure → Report Failure
  blame (kill pid) = kill_failed
  blame isolate = isolate_failed
  blame (quarantine path) = quarantine_failed

  -- Tasks one after another until one fails.
  pub perform_all : List Task → List String → World → World × Report Failure
  unfolding perform blame
  perform_all [] done w = (w, report done)
  perform_all (t ∷ ts) done w =
      proceed (perform t w) (blame t) (perform_all ts (done ++ task_name t ∷ []))
