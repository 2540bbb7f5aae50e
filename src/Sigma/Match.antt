-- ===== src/Sigma/Match.antt =====
-- internal/sigma/sigma.go: what a rule's match depends on.
use mathlib.Core.List.{Permᴰ}
use aegis_edr.Prelude.{
  String, false, List, [], ◌∷◌, ◌++◌, map, ◌==◌, string_eq, ◌≡◌, refl, sym, ap, ◌∙◌, arith,
  Bool-cases, inl, inr,
}
use aegis_edr.Sigma.{
  Rule, Engine, EventMap, Value, scalar, no_text, field_matches, detection_matches,
  category_matches, rule_matches, evaluate, evaluate_rules,
}

module _ (event_map : EventMap) where
  detection_matches_perm :
      {before after : List (String × Value)}
      → Permᴰ before after
      → detection_matches event_map before ≡ detection_matches event_map after
  unfolding detection_matches
  detection_matches_perm Permᴰ.nil = refl
  detection_matches_perm (Permᴰ.cons {a = (key, val)} same p) =
      ground (arith, detection_matches_perm p)
  detection_matches_perm (Permᴰ.swap same₁ same₂) = rw (sym same₁, sym same₂) (ground arith)
  detection_matches_perm (Permᴰ.trans p q) = detection_matches_perm p ∙ detection_matches_perm q

  -- The rules with their detections in another order.
  abbrev pub reordered : (Rule → List (String × Value)) → Rule → Rule
  reordered order rule = record rule { detection = record { entries = order rule } }

  evaluate_rules_order :
      (rules : List Rule) (order : Rule → List (String × Value))
      → ((rule : Rule) → Permᴰ rule.detection.entries (order rule))
      → evaluate_rules event_map (map (reordered order) rules) ≡ evaluate_rules event_map rules
  unfolding evaluate_rules rule_matches category_matches
  evaluate_rules_order [] order perm = refl
  evaluate_rules_order (rule ∷ rules) order perm =
      ground (arith, evaluate_rules_order rules order perm, detection_matches_perm (perm rule))

  -- The titles that match do not depend on the orders in which the loops meet the detections' keys.
  pub evaluate_order :
      (e : Engine) (order : Rule → List (String × Value))
      → ((rule : Rule) → Permᴰ rule.detection.entries (order rule))
      → evaluate (record { rules = map (reordered order) e.rules }) event_map ≡ evaluate e event_map
  unfolding evaluate
  evaluate_order e order perm = evaluate_rules_order e.rules order perm

  nested_fails :
      (before after : List (String × Value)) (key : String)
      → (key == "condition") ≡ false
      → detection_matches event_map (before ++ (key, scalar no_text) ∷ after) ≡ false
  unfolding detection_matches field_matches
  nested_fails [] after key other = ground (arith, other)
  nested_fails ((k, v) ∷ before) after key other =
      ground (arith, nested_fails before after key other)

  evaluate_rules-append :
      (rules more : List Rule)
      → evaluate_rules event_map (rules ++ more)
        ≡ evaluate_rules event_map rules ++ evaluate_rules event_map more
  unfolding evaluate_rules
  evaluate_rules-append [] more = refl
  evaluate_rules-append (rule ∷ rules) more = elim (Bool-cases (rule_matches event_map rule)) [
    | inl matched ↦ rw matched (ap (◌∷◌ rule.title) (evaluate_rules-append rules more))
    | inr failed ↦ rw failed (evaluate_rules-append rules more)
  ]

  unmatched :
      (rule : Rule) (more : List Rule)
      → detection_matches event_map rule.detection.entries ≡ false
      → evaluate_rules event_map (rule ∷ more) ≡ evaluate_rules event_map more
  unfolding evaluate_rules rule_matches
  unmatched rule more failed = ground (arith, failed)

  -- A rule of which some detection entry other than "condition" is neither a text nor a list, such as
  -- a map of fields under "selection", matches no event: an engine evaluates as if it had no such
  -- rule.
  pub evaluate_nested :
      (rules more : List Rule) (rule : Rule) (before after : List (String × Value)) (key : String)
      → rule.detection.entries ≡ before ++ (key, scalar no_text) ∷ after
      → (key == "condition") ≡ false
      → evaluate (record { rules = rules ++ rule ∷ more }) event_map
        ≡ evaluate (record { rules = rules ++ more }) event_map
  unfolding evaluate
  evaluate_nested rules more rule before after key nested other =
      evaluate_rules-append rules (rule ∷ more)
      ∙ ap (λ titles. evaluate_rules event_map rules ++ titles)
          (unmatched rule more (rw nested (nested_fails before after key other)))
      ∙ sym (evaluate_rules-append rules more)
