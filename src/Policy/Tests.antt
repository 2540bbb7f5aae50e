-- ===== src/Policy/Tests.antt =====
-- The policy engine at concrete inputs.
use mathlib.Core.Bool.{false≢true}
use text.Mathlib.TextEquality.{eq_iff}
use aegis_edr.Prelude.{
  ℕ, ◌≡◌, ◌↔◌, inl, inr, refl, pos, String, none, some, List, [], ◌∷◌, string_eq,
}
use aegis_edr.Dict.{Dict, empty, get, put}
use aegis_edr.Policy.{
  Rule, Policy, PolicyEngine, new_policy_engine, validate_policy, load_policy, set_active_policy,
  evaluate_chain, evaluate_rule, first_match, is_action, validate_rules, validate_rule,
}
use aegis_edr.Policy.Validity.{IsSound, Call, loads, activates, run, run-IsSound}
use aegis_edr.Policy.Chain.{Decides, evaluate_chain_iff}
use aegis_edr.Policy.Layers.{IsLayered, evaluate_chain_answers}
use aegis_edr.Policy.Cycles.{IsTrap}

abbrev rule : String → String → Rule ℕ
rule path action = record {
  id = "r1";
  name = "rule";
  action = action;
  process_path = path;
  risk_score = 50;
}

abbrev base : Policy ℕ
base = record { id = "base"; parent_id = ""; rules = rule "/bin" "Deny" ∷ []; version = pos 1 }

abbrev child : Policy ℕ
child = record {
  id = "child";
  parent_id = "base";
  rules = rule "/opt" "Allow" ∷ [];
  version = pos 1;
}

abbrev ouroboros : Policy ℕ
ouroboros = record {
  id = "loop";
  parent_id = "loop";
  rules = rule "/opt" "Allow" ∷ [];
  version = pos 1;
}

abbrev calls : List (Call ℕ)
calls = loads base ∷ loads child ∷ activates "missing" ∷ activates "child" ∷ []

abbrev engine : PolicyEngine ℕ
engine = run (new_policy_engine none) calls

run-IsSound_example : IsSound engine
run-IsSound_example = run-IsSound none calls

inherited_deny : evaluate_rule 3 engine "/bin/sh" ≡ some "Deny"
unfolding run new_policy_engine load_policy set_active_policy validate_policy validate_rules
    validate_rule is_action evaluate_rule evaluate_chain first_match get put
inherited_deny = refl

evaluate_chain_iff_example :
    ((fuel : ℕ) × (evaluate_chain fuel engine.policies "child" "/bin/sh" ≡ some "Deny"))
    ↔ Decides engine.policies "/bin/sh" "Deny" "child"
evaluate_chain_iff_example = evaluate_chain_iff engine.policies "/bin/sh" "child" "Deny"

-- The child after its parent, and a call that is refused.
layered : IsLayered (new_policy_engine none) calls
unfolding IsLayered new_policy_engine load_policy set_active_policy validate_policy validate_rules
    validate_rule is_action get put
layered = (refl, inl refl, (refl, inr (base, refl), tt))

evaluate_chain_answers_example :
    (a : String) × (evaluate_chain 6 engine.policies "child" "/usr/bin/x" ≡ some a)
    × Decides engine.policies "/usr/bin/x" a "child"
evaluate_chain_answers_example = evaluate_chain_answers none calls "child" "/usr/bin/x" layered

abbrev looped : Dict String (Policy ℕ)
looped = put empty "loop" ouroboros

looped-IsTrap : IsTrap looped "/bin/sh" (λ id. id ≡ "loop")
unfolding first_match get put
looped-IsTrap id e = (ouroboros, rw e, refl, (λ same. false≢true ((eq_iff "loop" "").1 same)), refl)
