-- ===== src/Policy/Cycles.antt =====
-- Policies that are their own ancestors: validation lets them in, and evaluation never answers.
use aegis_edr.Prelude.{ℕ, zero, suc, ◌≡◌, refl, String, none, some, ◌≢◌, arith, string_eq}
use text.Mathlib.TextEquality.{eq_iff}
use aegis_edr.Dict.{Dict, get, get-put_self}
use aegis_edr.Policy.{
  Policy, PolicyEngine, first_match, evaluate_chain, evaluate_rule, validate_policy, load_policy,
  set_active_policy,
}

module _ {Score : Type 0} where
  -- A set of IDs whose policies are loaded, match no rule, and have their parents in the set.
  abbrev pub IsTrap : Dict String (Policy Score) → String → (String → Type 0) → Type 0
  IsTrap policies path Inside =
      (id : String)
      → Inside id
      → (p : Policy Score) × (get policies id ≡ some p)
        × (first_match p.rules path ≡ none)
        × (p.parent_id ≢ "")
        × Inside p.parent_id

  -- In such a set no fuel suffices: the recursion of the code has no end.
  pub evaluate_chain_diverges :
      (policies : Dict String (Policy Score)) (path : String) (Inside : String → Type 0)
      → IsTrap policies path Inside
      → (fuel : ℕ) (id : String) → Inside id
      → evaluate_chain fuel policies id path ≡ none
  unfolding evaluate_chain
  evaluate_chain_diverges policies path Inside trap zero id h = refl
  evaluate_chain_diverges policies path Inside trap (suc fuel) id h =
      let (p, found, miss, inner, inside) = trap id h in
      let ih = evaluate_chain_diverges policies path Inside trap fuel p.parent_id inside in
      ground (arith, eq_iff p.parent_id "")

  -- A valid policy that names itself as its parent is loaded and activated without an error, and
  -- from then on a path that none of its rules match is never answered for.
  pub load_policy_self_parent :
      (pe : PolicyEngine Score) (p : Policy Score) (path : String)
      → validate_policy p ≡ none
      → p.parent_id ≡ p.id
      → p.id ≢ ""
      → first_match p.rules path ≡ none
      → ((load_policy pe p).1 ≡ none)
        × ((set_active_policy (load_policy pe p).0 p.id).1 ≡ none)
        × ((fuel : ℕ)
            → evaluate_rule fuel (set_active_policy (load_policy pe p).0 p.id).0 path ≡ none)
  unfolding load_policy set_active_policy evaluate_rule
  load_policy_self_parent pe p path valid self named miss =
      let loaded = get-put_self pe.policies p.id p in
      (
        ground arith,
        ground arith,
        λ fuel.
            let loop =
              evaluate_chain_diverges (load_policy pe p).0.policies path (λ id. id ≡ p.id)
                (λ id e. (p, ground arith, miss, ground arith, self)) fuel p.id refl in
            ground (arith, eq_iff p.id ""),
      )
