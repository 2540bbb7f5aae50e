-- ===== src/Nextgen/Sequence.antt =====
-- What a match of a rule is.
use aegis_edr.Prelude.{
  ℕ, ◌≡◌, refl, ap, ◌∙◌, inl, inr, ◌⊎◌, String, Option, none, some, List, [], ◌∷◌, ◌++◌, true,
  arith, ◌==◌, string_eq, get_elem?, Option-cases, Bool-cases,
}
use mathlib.Core.List.{append_assoc}
use aegis_edr.Nextgen.{Edge, Node}
use aegis_edr.Nextgen.Rules.{in_time, try_edges, check_sequence}

abbrev pub HasEdge : List Edge → ℕ → Type 0
HasEdge [] b = ⊥
HasEdge (e ∷ edges) b = (e.target ≡ b) ⊎ HasEdge edges b

-- A path in the graph whose nodes have the types of a sequence, each node linked to the next one
-- by an edge, and no node later than the window after the one before it.
pub data IsChain (heap : List Node) (window : ℕ) : List String → ℕ → List ℕ → Type 0 where
  ends :
      {t : String} {a : ℕ} (n : Node)
      → get_elem? heap a ≡ some n
      → n.type ≡ t
      → IsChain heap window (t ∷ []) a (a ∷ [])
  links :
      {t s : String} {ts : List String} {a b : ℕ} {chain : List ℕ} (n m : Node)
      → get_elem? heap a ≡ some n
      → n.type ≡ t
      → HasEdge n.edges b
      → get_elem? heap b ≡ some m
      → in_time window n m ≡ true
      → IsChain heap window (s ∷ ts) b chain
      → IsChain heap window (t ∷ s ∷ ts) a (a ∷ chain)

module _ (heap : List Node) (window : ℕ) where
  -- An edge in time that leads to a match.
  abbrev Leads : Node → (ℕ → Option (List ℕ)) → List Edge → List ℕ → Type 0
  Leads n check edges r =
      (b : ℕ) × (m : Node) × HasEdge edges b
      × (get_elem? heap b ≡ some m)
      × (in_time window n m ≡ true)
      × (check b ≡ some r)

  later_edge :
      (n : Node) (check : ℕ → Option (List ℕ)) (edge : Edge) (edges : List Edge) (r : List ℕ)
      → Leads n check edges r
      → Leads n check (edge ∷ edges) r
  later_edge n check edge edges r (b, m, e, here, timely, match) =
      (b, m, inr e, here, timely, match)

  try_edges-Leads :
      (n : Node) (check : ℕ → Option (List ℕ)) (edges : List Edge) (r : List ℕ)
      → try_edges heap window n check edges ≡ some r
      → Leads n check edges r
  unfolding try_edges
  try_edges-Leads n check [] r h = absurd (ground arith)
  try_edges-Leads n check (edge ∷ edges) r h = elim (Option-cases (get_elem? heap edge.target)) [
    | inl gone ↦
        later_edge n check edge edges r (try_edges-Leads n check edges r (ground (arith, gone, h)))
    | inr (m, here) ↦ elim (Bool-cases (in_time window n m)) [
      | inl timely ↦ elim (Option-cases (check edge.target)) [
        | inl failed ↦
            later_edge n check edge edges r
              (try_edges-Leads n check edges r (ground (arith, here, timely, failed, h)))
        | inr (c, match) ↦
            (edge.target, m, inl refl, here, timely, ground (arith, here, timely, match, h))
      ]
      | inr late ↦
          later_edge n check edge edges r
            (try_edges-Leads n check edges r (ground (arith, here, late, h)))
    ]
  ]

  Leads-try_edges :
      (n : Node) (check : ℕ → Option (List ℕ)) (edges : List Edge) (r : List ℕ)
      → Leads n check edges r
      → (c : List ℕ) × (try_edges heap window n check edges ≡ some c)
  unfolding try_edges
  Leads-try_edges n check [] r (b, m, e, here, timely, match) = absurd e
  Leads-try_edges n check (edge ∷ edges) r (b, m, inl e, here, timely, match) =
      let here' : get_elem? heap edge.target ≡ some m = ap (get_elem? heap) e ∙ here in
      let match' : check edge.target ≡ some r = ap check e ∙ match in
      (r, ground (arith, here', timely, match'))
  Leads-try_edges n check (edge ∷ edges) r (b, m, inr e, here, timely, match) =
      let (c, rest) = Leads-try_edges n check edges r (b, m, e, here, timely, match) in
      elim (Option-cases (try_edges heap window n check (edge ∷ edges))) [
        | inl failed ↦ absurd (ground (arith, failed, rest))
        | inr (c', found) ↦ (c', found)
      ]

  matched_node :
      (t : String) (ts : List String) (a : ℕ) (before r : List ℕ)
      → check_sequence heap window (t ∷ ts) a before ≡ some r
      → (n : Node) × (get_elem? heap a ≡ some n) × (n.type ≡ t) × ((n.type == t) ≡ true)
  unfolding check_sequence
  matched_node t ts a before r h = elim (Option-cases (get_elem? heap a)) [
    | inl gone ↦ absurd (ground (arith, gone, h))
    | inr (n, here) ↦ elim (Bool-cases (n.type == t)) [
      | inr other ↦ absurd (ground (arith, here, other, h))
      | inl same ↦ (n, here, (string_eq.same_iff n.type t).0 same, same)
    ]
  ]

  -- The match for what is left of the sequence extends the chain so far by a chain in the graph.
  match-IsChain :
      (t : String) (ts : List String) (a : ℕ) (before r : List ℕ)
      → check_sequence heap window (t ∷ ts) a before ≡ some r
      → (c : List ℕ) × (r ≡ before ++ c) × IsChain heap window (t ∷ ts) a c
  unfolding check_sequence
  match-IsChain t [] a before r h =
      let (n, here, is_t, same) = matched_node t [] a before r h in
      (a ∷ [], ground (arith, here, same, h), ends n here is_t)
  match-IsChain t (s ∷ ss) a before r h =
      let (n, here, is_t, same) = matched_node t (s ∷ ss) a before r h in
      let (b, m, e, there, timely, match) =
        try_edges-Leads n (λ b. check_sequence heap window (s ∷ ss) b (before ++ a ∷ [])) n.edges r
          (ground (arith, here, same, h)) in
      let (c, joined, chain) = match-IsChain s ss b (before ++ a ∷ []) r match in
      (a ∷ c, joined ∙ append_assoc before (a ∷ []) c, links n m here is_t e there timely chain)

  pub IsChain-found :
      {seq : List String} {a : ℕ} {c : List ℕ}
      → IsChain heap window seq a c
      → (before : List ℕ) → (r : List ℕ) × (check_sequence heap window seq a before ≡ some r)
  unfolding check_sequence
  IsChain-found (ends {t} {a} n here is_t) before =
      (before ++ a ∷ [], ground (arith, here, is_t, (string_eq.same_iff n.type t).1 is_t))
  IsChain-found (links {t} {s} {ts} {a} {b} n m here is_t e there timely chain) before =
      let (r, match) = IsChain-found chain (before ++ a ∷ []) in
      let (r', found) =
        Leads-try_edges n (λ b. check_sequence heap window (s ∷ ts) b (before ++ a ∷ [])) n.edges r
          (b, m, e, there, timely, match) in
      (r', ground (arith, here, (string_eq.same_iff n.type t).1 is_t, found))

  -- For a rule with a sequence, checkSequence finds a chain of the sequence from the node where
  -- there is one, and reports no match only where there is none.
  pub check_sequence-IsChain :
      (t : String) (ts : List String) (a : ℕ)
      → ((c : List ℕ) × (check_sequence heap window (t ∷ ts) a [] ≡ some c)
          × IsChain heap window (t ∷ ts) a c)
        ⊎ ((check_sequence heap window (t ∷ ts) a [] ≡ none)
            × ((c : List ℕ) → ¬ IsChain heap window (t ∷ ts) a c))
  check_sequence-IsChain t ts a = elim (Option-cases (check_sequence heap window (t ∷ ts) a [])) [
    | inl failed ↦ inr (
      failed,
      λ c chain. let (r, found) = IsChain-found chain [] in absurd (ground (arith, failed, found)),
    )
    | inr (r, found) ↦
        let (c, same, chain) = match-IsChain t ts a [] r found in
        inl (c, found ∙ ap some same, chain)
  ]
