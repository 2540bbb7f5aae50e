-- ===== src/Policy/Chain.antt =====
-- What the inheritance chain decides, as a relation, and the fuel that it takes.
use aegis_edr.Prelude.{
  ℕ, zero, suc, ◌≡◌, ◌<◌, ◌↔◌, inl, inr, String, none, some, ◌≢◌, arith, ◌==◌, string_eq,
  Bool-cases, Option-cases,
}
use text.Mathlib.TextEquality.{eq_iff}
use aegis_edr.Dict.{Dict, get}
use aegis_edr.Policy.{Policy, first_match, action_monitor, evaluate_chain}

module _ {Score : Type 0} where
  -- The nearest rule on the way from a policy to its ancestors that matches the path decides; where
  -- the way ends without one, at a policy with no parent or an ID that is not loaded, the process
  -- is monitored.
  pub data Decides (policies : Dict String (Policy Score)) (path a : String) : String → Type 0 where
    unknown :
        {id : String} → get policies id ≡ none → a ≡ action_monitor → Decides policies path a id
    matched :
        {id : String} (p : Policy Score)
        → get policies id ≡ some p
        → first_match p.rules path ≡ some a
        → Decides policies path a id
    root :
        {id : String} (p : Policy Score)
        → get policies id ≡ some p
        → first_match p.rules path ≡ none
        → p.parent_id ≡ ""
        → a ≡ action_monitor
        → Decides policies path a id
    inherited :
        {id : String} (p : Policy Score)
        → get policies id ≡ some p
        → first_match p.rules path ≡ none
        → p.parent_id ≢ ""
        → Decides policies path a p.parent_id
        → Decides policies path a id

  module _ (policies : Dict String (Policy Score)) (path : String) where
    pub evaluate_chain-Decides :
        (fuel : ℕ) (id a : String)
        → evaluate_chain fuel policies id path ≡ some a
        → Decides policies path a id
    unfolding evaluate_chain
    evaluate_chain-Decides zero id a h = absurd (ground arith)
    evaluate_chain-Decides (suc fuel) id a h = elim (Option-cases (get policies id)) [
      | inl missing ↦ unknown missing (ground arith)
      | inr (p, found) ↦ elim (Option-cases (first_match p.rules path)) [
        | inr (b, hit) ↦ matched p found (ground arith)
        | inl miss ↦ elim (Bool-cases (p.parent_id == "")) [
          | inl top ↦ root p found miss ((eq_iff p.parent_id "").0 top) (ground arith)
          | inr inner ↦
              inherited p found miss (λ e. ground (arith, eq_iff p.parent_id ""))
                (evaluate_chain-Decides fuel p.parent_id a (ground arith))
        ]
      ]
    ]

    Decides-evaluate_chain :
        {a id : String}
        → Decides policies path a id
        → (fuel : ℕ) × (evaluate_chain fuel policies id path ≡ some a)
    unfolding evaluate_chain
    Decides-evaluate_chain (unknown m e) = (1, ground arith)
    Decides-evaluate_chain (matched p f h) = (1, ground arith)
    Decides-evaluate_chain (root p f h t e) = (1, ground (arith, eq_iff p.parent_id ""))
    Decides-evaluate_chain (inherited p f h n d) =
        let (fuel, ih) = Decides-evaluate_chain d in
        (suc fuel, ground (arith, eq_iff p.parent_id ""))

    -- The recursion answers, with some fuel, exactly what the chain decides.
    pub evaluate_chain_iff :
        (id a : String)
        → ((fuel : ℕ) × (evaluate_chain fuel policies id path ≡ some a))
          ↔ Decides policies path a id
    evaluate_chain_iff id a = (
      (λ (r : (fuel : ℕ) × (evaluate_chain fuel policies id path ≡ some a)).
          evaluate_chain-Decides r.0 id a r.1),
      Decides-evaluate_chain,
    )

  -- The parents of loaded policies that are loaded too have a smaller rank.
  abbrev pub IsRanked : Dict String (Policy Score) → (String → ℕ) → Type 0
  IsRanked policies rank =
      (id : String) (p q : Policy Score)
      → get policies id ≡ some p
      → get policies p.parent_id ≡ some q
      → rank p.parent_id < rank id

  -- If no policy is its own ancestor, the recursion ends: fuel that is two above the rank suffices.
  pub evaluate_chain_total :
      (policies : Dict String (Policy Score)) (rank : String → ℕ) (path : String)
      → IsRanked policies rank
      → (fuel : ℕ) (id : String) → suc (rank id) < fuel
      → (a : String) × (evaluate_chain fuel policies id path ≡ some a)
  unfolding evaluate_chain
  evaluate_chain_total policies rank path ranked zero id h = absurd (omega arith)
  evaluate_chain_total policies rank path ranked (suc zero) id h = absurd (omega arith)
  evaluate_chain_total policies rank path ranked (suc (suc fuel)) id h =
      elim (Option-cases (get policies id)) [
        | inl missing ↦ (action_monitor, ground arith)
        | inr (p, found) ↦ elim (Option-cases (first_match p.rules path)) [
          | inr (b, hit) ↦ (b, ground arith)
          | inl miss ↦ elim (Bool-cases (p.parent_id == "")) [
            | inl top ↦ (action_monitor, ground arith)
            | inr inner ↦ elim (Option-cases (get policies p.parent_id)) [
              | inl gone ↦ (action_monitor, ground arith)
              | inr (q, there) ↦
                  let (a, ih) =
                    evaluate_chain_total policies rank path ranked (suc fuel) p.parent_id
                      (omega (arith, ranked id p q found there)) in
                  (a, ground arith)
            ]
          ]
        ]
      ]
