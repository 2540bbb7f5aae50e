-- ===== src/Policy/Validity.antt =====
-- What is loaded has been validated.
use aegis_edr.Prelude.{
  ℕ, zero, suc, ◌≡◌, refl, ap, ◌∙◌, ◌⊎◌, inl, inr, String, Option, none, some, List, [], ◌∷◌, true,
  false, arith, ◌==◌, string_eq, Bool-cases, Option-cases,
}
use text.Mathlib.TextEquality.{eq_iff}
use aegis_edr.Dict.{get, get-put, get-empty}
use aegis_edr.Policy.{
  Rule, Policy, PolicyEngine, ResponseConfig, is_action, validate_rules, validate_policy,
  load_policy, set_active_policy, first_match, new_policy_engine, action_monitor, action_allow,
  validate_rule, evaluate_chain, evaluate_rule,
}

-- The calls that change the engine.
pub data Call (Score : Type 0) : Type 0 where
  loads : Policy Score → Call Score
  activates : String → Call Score

monitor-is_action : is_action action_monitor ≡ true
unfolding is_action
monitor-is_action = refl

allow-is_action : is_action action_allow ≡ true
unfolding is_action
allow-is_action = refl

module _ {Score : Type 0} where
  -- Each policy is loaded under its own ID and was found valid, and the active one is loaded.
  pub record IsSound (pe : PolicyEngine Score) : Type 0 where
    pub valid :
        (id : String) (p : Policy Score)
        → get pe.policies id ≡ some p
        → (p.id ≡ id) × (validate_policy p ≡ none)
    pub active :
        (pe.active_policy_id ≡ "")
        ⊎ ((p : Policy Score) × (get pe.policies pe.active_policy_id ≡ some p))

  abbrev pub after : PolicyEngine Score → Call Score → PolicyEngine Score
  after pe (loads p) = (load_policy pe p).0
  after pe (activates id) = (set_active_policy pe id).0

  unfoldable pub run : PolicyEngine Score → List (Call Score) → PolicyEngine Score
  run pe [] = pe
  run pe (c ∷ cs) = run (after pe c) cs

  -- An allowing rule with an ID and a path makes a valid policy.
  pub validate_policy_allow :
      (p : Policy Score) (r : Rule Score)
      → (p.id == "") ≡ false
      → p.rules ≡ r ∷ []
      → (r.id == "") ≡ false
      → r.action ≡ action_allow
      → (r.process_path == "") ≡ false
      → validate_policy p ≡ none
  unfolding validate_policy validate_rules validate_rule is_action
  validate_policy_allow p r named rules ruled allows pathed =
      rw (named, rules) (ground (arith, ruled, pathed, ap is_action allows ∙ allow-is_action))

  pub new-IsSound : (cfg : Option (ResponseConfig Score)) → IsSound (new_policy_engine cfg)
  unfolding new_policy_engine
  new-IsSound cfg = record {
    valid = λ id p h. cc (get-empty {V = Policy Score} id);
    active = inl refl;
  }

  load-IsSound :
      (pe : PolicyEngine Score) (p : Policy Score) → IsSound pe → IsSound (load_policy pe p).0
  unfolding load_policy
  load-IsSound pe p s = elim (Option-cases (validate_policy p)) [
    | inl ok ↦
        rw (ok, load_policy)
          (record {
            valid = λ id q h.
                ground (arith, get-put pe.policies p.id id p, s.valid id q, eq_iff p.id id);
            active = elim s.active [
              | inl none_active ↦ inl none_active
              | inr (q, found) ↦ elim (Bool-cases (p.id == pe.active_policy_id)) [
                | inl same ↦ inr (p, ground (arith, get-put pe.policies p.id pe.active_policy_id p))
                | inr other ↦
                    inr (q, ground (arith, get-put pe.policies p.id pe.active_policy_id p))
              ]
            ];
          })
    | inr (e, bad) ↦ rw (bad, load_policy) s
  ]

  activate-IsSound :
      (pe : PolicyEngine Score) (id : String) → IsSound pe → IsSound (set_active_policy pe id).0
  unfolding set_active_policy
  activate-IsSound pe id s = elim (Option-cases (get pe.policies id)) [
    | inl missing ↦ rw (missing, set_active_policy) s
    | inr (p, found) ↦
        rw (found, set_active_policy) (record { valid = s.valid; active = inr (p, found) })
  ]

  -- Whatever policies are offered and whatever IDs are activated, the engine holds only policies
  -- that passed validation, each under its own ID, and the active policy is none or a loaded one.
  pub run-IsSound :
      (cfg : Option (ResponseConfig Score)) (cs : List (Call Score))
      → IsSound (run (new_policy_engine cfg) cs)
  unfolding run
  run-IsSound cfg cs = go (new_policy_engine cfg) cs (new-IsSound cfg)
    where
      go : (pe : PolicyEngine Score) (cs : List (Call Score)) → IsSound pe → IsSound (run pe cs)
      go pe [] s = s
      go pe (loads p ∷ cs) s = go (load_policy pe p).0 cs (load-IsSound pe p s)
      go pe (activates id ∷ cs) s = go (set_active_policy pe id).0 cs (activate-IsSound pe id s)

  first_match-is_action :
      (rs : List (Rule Score)) (path : String) (a : String)
      → validate_rules rs ≡ none
      → first_match rs path ≡ some a
      → is_action a ≡ true
  unfolding validate_rules first_match
  first_match-is_action [] path a v h = cc
  first_match-is_action (r ∷ rs) path a v h = ground (arith, first_match-is_action rs path a)

  valid-rules : (p : Policy Score) → validate_policy p ≡ none → validate_rules p.rules ≡ none
  unfolding validate_policy
  valid-rules p h = ground arith

  chain-is_action :
      (fuel : ℕ) (pe : PolicyEngine Score) (id path a : String)
      → IsSound pe
      → evaluate_chain fuel pe.policies id path ≡ some a
      → is_action a ≡ true
  unfolding evaluate_chain
  chain-is_action zero pe id path a s h = cc
  chain-is_action (suc fuel) pe id path a s h = elim (Option-cases (get pe.policies id)) [
    | inl missing ↦ ground (arith, monitor-is_action)
    | inr (p, found) ↦ ground (
      arith,
      monitor-is_action,
      first_match-is_action p.rules path a (valid-rules p (s.valid id p found).1),
      chain-is_action fuel pe p.parent_id path a s,
    )
  ]

  -- On an engine with validated policies an answer is one of the five actions.
  pub evaluate_rule-is_action :
      (fuel : ℕ) (pe : PolicyEngine Score) (path a : String)
      → IsSound pe
      → evaluate_rule fuel pe path ≡ some a
      → is_action a ≡ true
  unfolding evaluate_rule
  evaluate_rule-is_action fuel pe path a s h =
      ground (arith, monitor-is_action, chain-is_action fuel pe pe.active_policy_id path a s)
