-- ===== src/Policy/Mitigation/Tests.antt =====
-- The automatic response at concrete inputs.
use aegis_edr.Prelude.{
  ℕ, ◌≡◌, ◌⊎◌, refl, pos, String, none, some, List, [], ◌∷◌, ◌++◌, true, false, ltb, ◌==◌,
  string_eq, int_eq, if◌then◌else◌,
}
use aegis_edr.Dict.{Dict, empty, get, put}
use aegis_edr.Policy.{PolicyEngine, ActionConfig, ResponseConfig}
use aegis_edr.Policy.Mitigation.{
  Value, int_value, string_value, Responders, executed, mitigation_disabled, below_threshold,
  evaluate_and_mitigate, mitigate, act, plan, perform_all, report, int_of, string_of,
}
use aegis_edr.Policy.Mitigation.Plan.{evaluate_and_mitigate_gated}

-- A world that notes what was done, and in which killing process 13 fails.
abbrev recorder : Responders
recorder = record {
  World = List String;
  Failure = String;
  kill_tree =
      λ pid w. if pid == pos 13 then (w, some "no such process") else (w ++ "killed" ∷ [], none);
  isolate_host = λ w. (w ++ "isolated" ∷ [], none);
  quarantine_file = λ key source target w. (w ++ source ∷ [], none);
}

abbrev configured : List ActionConfig
configured =
    record { name = "kill"; enabled = true }
    ∷ record { name = "isolate"; enabled = false }
    ∷ record { name = "quarantine"; enabled = true }
    ∷ []

abbrev details : Dict String Value
details = put (put empty "pid" (int_value (pos 7))) "filepath" (string_value "/tmp/x")

abbrev armed : PolicyEngine ℕ
armed = record {
  cfg = some (record {
    auto_mitigation = true;
    risk_threshold = 80;
    actions = configured;
    quarantine_key = "";
  });
  policies = empty;
  active_policy_id = "";
}

armed_runs :
    evaluate_and_mitigate recorder ltb armed 90 details []
    ≡ ("killed" ∷ "/tmp/x" ∷ [], executed ("kill" ∷ "quarantine" ∷ []))
unfolding evaluate_and_mitigate mitigate act report get put int_of string_of
armed_runs = refl

evaluate_and_mitigate_gated_example :
    ((cfg : ResponseConfig ℕ) × (armed.cfg ≡ some cfg)
      × (cfg.auto_mitigation ≡ true)
      × (ltb 90 cfg.risk_threshold ≡ false)
      × (evaluate_and_mitigate recorder ltb armed 90 details []
          ≡ perform_all recorder (plan details cfg.actions) [] []))
    ⊎ (((armed.cfg ≡ none)
          ⊎ ((cfg : ResponseConfig ℕ) × (armed.cfg ≡ some cfg) × (cfg.auto_mitigation ≡ false)))
        × (evaluate_and_mitigate recorder ltb armed 90 details [] ≡ ([], mitigation_disabled)))
    ⊎ ((cfg : ResponseConfig ℕ) × (armed.cfg ≡ some cfg)
        × (cfg.auto_mitigation ≡ true)
        × (ltb 90 cfg.risk_threshold ≡ true)
        × (evaluate_and_mitigate recorder ltb armed 90 details [] ≡ ([], below_threshold)))
evaluate_and_mitigate_gated_example = evaluate_and_mitigate_gated recorder ltb armed 90 details []
