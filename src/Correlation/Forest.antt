-- ===== src/Correlation/Forest.antt =====
-- Lists of nodes whose children come later in the list.
use aegis_edr.Prelude.{
  ℕ, zero, suc, ◌+◌, ◌≡◌, ◌≤◌, ◌<◌, subst, some, List, [], ◌∷◌, ◌++◌, arith, string_eq, int_eq,
  get_elem?, update, All, All-map,
}
use aegis_edr.Correlation.{ProcessNode}

-- The children of the nodes from an address on are later nodes, below a limit.
abbrev pub IsYounger : ℕ → ℕ → ℕ → Type 0
IsYounger limit a c = (a < c) × (c < limit)

abbrev pub IsForest : ℕ → ℕ → List ProcessNode → Type 0
IsForest limit a [] = Unit
IsForest limit a (n ∷ ns) = All (IsYounger limit a) n.children × IsForest limit (suc a) ns

pub grow-IsForest :
    (limit limit' a : ℕ) (ns : List ProcessNode)
    → limit ≤ limit'
    → IsForest limit a ns
    → IsForest limit' a ns
grow-IsForest limit limit' a [] h p = tt
grow-IsForest limit limit' a (n ∷ ns) h (p, ps) = (
  All-map (IsYounger limit a) (IsYounger limit' a) n.children (λ c q. (q.0, omega (arith, q.1))) p,
  grow-IsForest limit limit' (suc a) ns h ps,
)

pub append-IsForest :
    (limit a : ℕ) (ns : List ProcessNode) (n : ProcessNode)
    → n.children ≡ []
    → IsForest limit a ns
    → IsForest limit a (ns ++ n ∷ [])
append-IsForest limit a [] n h p = (rw h tt, tt)
append-IsForest limit a (m ∷ ns) n h (p, ps) = (p, append-IsForest limit (suc a) ns n h ps)

pub children-IsForest :
    (limit a i : ℕ) (ns : List ProcessNode) (n : ProcessNode)
    → IsForest limit a ns
    → get_elem? ns i ≡ some n
    → All (IsYounger limit (a + i)) n.children
children-IsForest limit a i [] n p h = absurd (ground arith)
children-IsForest limit a zero (m ∷ ns) n (p, ps) h =
    let same : m ≡ n = cc h in
    subst (λ (k : ProcessNode). All (IsYounger limit (a + 0)) k.children) same
      (All-map (IsYounger limit a) (IsYounger limit (a + 0)) m.children
        (λ c q. (omega (arith, q.0), q.1)) p)
children-IsForest limit a (suc i) (m ∷ ns) n (p, ps) h =
    All-map (IsYounger limit (suc a + i)) (IsYounger limit (a + suc i)) n.children
      (λ c q. (omega (arith, q.0), q.1)) (children-IsForest limit (suc a) i ns n ps h)

pub update-IsForest :
    (limit a i : ℕ) (f : ProcessNode → ProcessNode) (ns : List ProcessNode)
    → ((n : ProcessNode)
        → All (IsYounger limit (a + i)) n.children
        → All (IsYounger limit (a + i)) (f n).children)
    → IsForest limit a ns
    → IsForest limit a (update i f ns)
update-IsForest limit a i f [] h p = p
update-IsForest limit a zero f (n ∷ ns) h (p, ps) = (
  All-map (IsYounger limit (a + 0)) (IsYounger limit a) (f n).children
      (λ c q. (omega (arith, q.0), q.1))
      (h n (
        All-map (IsYounger limit a) (IsYounger limit (a + 0)) n.children
          (λ c q. (omega (arith, q.0), q.1)) p)),
  ps,
)
update-IsForest limit a (suc i) f (n ∷ ns) h (p, ps) = (
  p,
  update-IsForest limit (suc a) i f ns
      (λ m q.
        All-map (IsYounger limit (a + suc i)) (IsYounger limit (suc a + i)) (f m).children
          (λ c r. (omega (arith, r.0), r.1))
          (h m (
            All-map (IsYounger limit (suc a + i)) (IsYounger limit (a + suc i)) m.children
              (λ c r. (omega (arith, r.0), r.1)) q)))
      ps,
)
