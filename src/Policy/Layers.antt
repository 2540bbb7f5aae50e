-- ===== src/Policy/Layers.antt =====
-- Policies that are loaded after their parents: the chain ends by itself.
use aegis_edr.Prelude.{
  ℕ, suc, ◌+◌, ◌≡◌, ◌≤◌, ◌⊎◌, inl, inr, subst, String, Option, none, some, List, [], ◌∷◌, false,
  arith, if◌then◌else◌, ◌==◌, string_eq, length, Bool-cases, Option-cases,
}
use text.Mathlib.TextEquality.{eq_iff}
use aegis_edr.Dict.{Dict, get, put, get-put, get-empty}
use aegis_edr.Policy.{
  Policy, PolicyEngine, ResponseConfig, new_policy_engine, validate_policy, load_policy,
  set_active_policy, evaluate_chain,
}
use aegis_edr.Policy.Chain.{Decides, IsRanked, evaluate_chain-Decides, evaluate_chain_total}
use aegis_edr.Policy.Validity.{Call, loads, activates, run}

module _ {Score : Type 0} where
  -- The parent is none or loaded.
  abbrev pub HasParent : Dict String (Policy Score) → Policy Score → Type 0
  HasParent policies p =
      (p.parent_id ≡ "") ⊎ ((q : Policy Score) × (get policies p.parent_id ≡ some q))

  -- Each policy is offered under a new ID and after its parent.
  unfoldable pub IsLayered : PolicyEngine Score → List (Call Score) → Type 0
  IsLayered pe [] = Unit
  IsLayered pe (loads p ∷ cs) =
      (get pe.policies p.id ≡ none) × HasParent pe.policies p × IsLayered (load_policy pe p).0 cs
  IsLayered pe (activates id ∷ cs) = IsLayered (set_active_policy pe id).0 cs

  -- After so many calls.
  record Layers (n : ℕ) (policies : Dict String (Policy Score)) : Type 0 where
    rank : String → ℕ
    ranked : IsRanked policies rank
    below : (id : String) → rank id ≤ n
    parents : (id : String) (p : Policy Score) → get policies id ≡ some p → HasParent policies p
    no_blank : get policies "" ≡ none

  no_orphan :
      (policies : Dict String (Policy Score)) (p q : Policy Score)
      → get policies "" ≡ none
      → get policies p.id ≡ none
      → (p.id == "") ≡ false
      → HasParent policies q
      → (p.id == q.parent_id) ≡ false
  no_orphan policies p q blank fresh named (inl none_above) = ground (arith, none_above, named)
  no_orphan policies p q blank fresh named (inr (r, above)) =
      elim (Bool-cases (p.id == q.parent_id)) [
        | inl same ↦ absurd (ground (arith, (eq_iff p.id q.parent_id).0 same, above, fresh))
        | inr other ↦ other
      ]

  put-HasParent :
      (policies : Dict String (Policy Score)) (p q : Policy Score)
      → HasParent policies q
      → HasParent (put policies p.id p) q
  put-HasParent policies p q (inl none_above) = inl none_above
  put-HasParent policies p q (inr (r, above)) = elim (Bool-cases (p.id == q.parent_id)) [
    | inl same ↦ inr (p, ground (arith, get-put policies p.id q.parent_id p, same))
    | inr other ↦ inr (r, ground (arith, get-put policies p.id q.parent_id p, other, above))
  ]

  put-Layers :
      (n : ℕ) (policies : Dict String (Policy Score)) (p : Policy Score)
      → get policies p.id ≡ none
      → HasParent policies p
      → (p.id == "") ≡ false
      → Layers n policies
      → Layers (suc n) (put policies p.id p)
  put-Layers n policies p fresh above named l = record {
    rank = λ id. if p.id == id then suc n else l.rank id;
    ranked = λ id a b at_id at_parent. elim (Bool-cases (p.id == id)) [
      | inl same ↦
          let new : p ≡ a = ground (arith, get-put policies p.id id p, same, at_id) in
          let apart = no_orphan policies p p l.no_blank fresh named above in
          let apart' : (p.id == a.parent_id) ≡ false = rw⁻¹ new apart in
          ground (arith, same, apart', l.below a.parent_id)
      | inr other ↦
          let old : get policies id ≡ some a =
            ground (arith, get-put policies p.id id p, other, at_id) in
          let apart = no_orphan policies p a l.no_blank fresh named (l.parents id a old) in
          ground (
            arith,
            other,
            apart,
            l.ranked id a b old
                (ground (arith, get-put policies p.id a.parent_id p, apart, at_parent)),
          )
    ];
    below = λ id. ground (arith, l.below id);
    parents = λ id q at_id. put-HasParent policies p q (elim (Bool-cases (p.id == id)) [
      | inl same ↦
          let new : p ≡ q = ground (arith, get-put policies p.id id p, same, at_id) in
          subst (HasParent policies) new above
      | inr other ↦ l.parents id q (ground (arith, get-put policies p.id id p, other, at_id))
    ]);
    no_blank = ground (arith, get-put policies p.id "" p, named, l.no_blank);
  }

  later-Layers :
      (n : ℕ) (policies : Dict String (Policy Score)) → Layers n policies → Layers (suc n) policies
  later-Layers n policies l = record {
    rank = l.rank;
    ranked = l.ranked;
    below = λ id. omega (arith, l.below id);
    parents = l.parents;
    no_blank = l.no_blank;
  }

  valid_named : (p : Policy Score) → validate_policy p ≡ none → (p.id == "") ≡ false
  unfolding validate_policy
  valid_named p ok = ground (arith, ok)

  load-Layers :
      (n : ℕ) (pe : PolicyEngine Score) (p : Policy Score)
      → get pe.policies p.id ≡ none
      → HasParent pe.policies p
      → Layers n pe.policies
      → Layers (suc n) (load_policy pe p).0.policies
  unfolding load_policy
  load-Layers n pe p fresh above l = elim (Option-cases (validate_policy p)) [
    | inl ok ↦ rw (ok, load_policy) (put-Layers n pe.policies p fresh above (valid_named p ok) l)
    | inr (e, bad) ↦ rw (bad, load_policy) (later-Layers n pe.policies l)
  ]

  activate_keeps :
      (pe : PolicyEngine Score) (id : String) → (set_active_policy pe id).0.policies ≡ pe.policies
  unfolding set_active_policy
  activate_keeps pe id = elim (Option-cases (get pe.policies id)) [
    | inl missing ↦ ground (arith, missing)
    | inr (p, found) ↦ ground (arith, found)
  ]

  run-Layers :
      (n m : ℕ) (pe : PolicyEngine Score) (cs : List (Call Score))
      → n + length cs ≡ m
      → IsLayered pe cs
      → Layers n pe.policies
      → Layers m (run pe cs).policies
  unfolding IsLayered run
  run-Layers n m pe [] counted layered l =
      let same : n ≡ m = omega (arith, counted) in subst (λ k. Layers k pe.policies) same l
  run-Layers n m pe (loads p ∷ cs) counted (fresh, above, layered) l =
      run-Layers (suc n) m (load_policy pe p).0 cs (omega (arith, counted)) layered
        (load-Layers n pe p fresh above l)
  run-Layers n m pe (activates id ∷ cs) counted layered l =
      run-Layers (suc n) m (set_active_policy pe id).0 cs (omega (arith, counted)) layered
        (later-Layers n (set_active_policy pe id).0.policies (rw (activate_keeps pe id) l))

  -- Where each policy was offered under a new ID and after its parent, the recursion answers from
  -- any ID, with fuel two above the number of calls so far: with what the chain decides.
  pub evaluate_chain_answers :
      (cfg : Option (ResponseConfig Score)) (cs : List (Call Score)) (id path : String)
      → IsLayered (new_policy_engine cfg) cs
      → (a : String) × (evaluate_chain
            (2 + length cs)
            (run (new_policy_engine cfg) cs).policies
            id
            path
          ≡ some a)
        × Decides (run (new_policy_engine cfg) cs).policies path a id
  unfolding new_policy_engine
  evaluate_chain_answers cfg cs id path layered =
      let l = run-Layers 0 (length cs) (new_policy_engine cfg) cs (omega arith) layered (record {
        rank = λ _. 0;
        ranked = λ id p q found _. absurd (ground (arith, found, get-empty {V = Policy Score} id));
        below = λ _. omega arith;
        parents = λ id p found. absurd (ground (arith, found, get-empty {V = Policy Score} id));
        no_blank = get-empty {V = Policy Score} "";
      }) in
      let policies = (run (new_policy_engine cfg) cs).policies in
      let (a, done) =
        evaluate_chain_total policies l.rank path l.ranked (2 + length cs) id
          (omega (arith, l.below id)) in
      (a, done, evaluate_chain-Decides policies path (2 + length cs) id a done)
