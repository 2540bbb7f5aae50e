-- ===== src/Nextgen/Visits.antt =====
-- The depth-first search ends, whatever the edges.
use aegis_edr.Prelude.{
  ℕ, zero, suc, ◌≡◌, ◌≤◌, ◌<◌, refl, ap, ◌∙◌, inl, inr, ℤ, String, Option, some, List, [], ◌∷◌,
  true, false, arith, not, string_eq, get_elem?, length, keep, length-keep-le, Option-cases,
  Bool-cases, ◌^^◌, show_int,
}
use aegis_edr.Nextgen.{Edge, Node, Engine, find_node}
use aegis_edr.Nextgen.Search.{
  Progress, is_visited, visit_edges, visit_node, dfs_timeline, Reply, reconstruct_timeline,
  not_found, found, sort_texts,
}

-- The nodes whose ID is not yet visited.
unvisited : List Node → List String → ℕ
unvisited heap visited = length (keep (λ n. not (is_visited visited n.id)) heap)

-- What one text list visits, the other does too.
abbrev Covers : List String → List String → Type 0
Covers more less = (id : String) → is_visited less id ≡ true → is_visited more id ≡ true

unvisited-Covers :
    (heap : List Node) (more less : List String)
    → Covers more less
    → unvisited heap more ≤ unvisited heap less
unfolding unvisited
unvisited-Covers [] more less h = omega arith
unvisited-Covers (n ∷ ns) more less h = ground (arith, unvisited-Covers ns more less h, h n.id)

Covers-visit : (id : String) (visited : List String) → Covers (id ∷ visited) visited
unfolding is_visited
Covers-visit id visited k h = ground (arith, h)

visited_self : (id : String) (visited : List String) → is_visited (id ∷ visited) id ≡ true
unfolding is_visited
visited_self id visited = ground (arith, (string_eq.same_iff id id).1 refl)

-- Visiting a node that is on the heap leaves fewer.
unvisited-visit :
    (heap : List Node) (a : ℕ) (n : Node) (visited : List String)
    → get_elem? heap a ≡ some n
    → is_visited visited n.id ≡ false
    → unvisited heap (n.id ∷ visited) < unvisited heap visited
unfolding unvisited
unvisited-visit [] a n visited h new = absurd (ground arith)
unvisited-visit (m ∷ ns) zero n visited h new =
    let same : m ≡ n = cc h in
    let self : is_visited (n.id ∷ visited) m.id ≡ true =
      ap (λ (k : Node). is_visited (n.id ∷ visited) k.id) same ∙ visited_self n.id visited in
    let fresh : is_visited visited m.id ≡ false =
      ap (λ (k : Node). is_visited visited k.id) same ∙ new in
    ground
      (arith, self, fresh, unvisited-Covers ns (n.id ∷ visited) visited (Covers-visit n.id visited))
unvisited-visit (m ∷ ns) (suc a) n visited h new =
    ground (arith, unvisited-visit ns a n visited h new, Covers-visit n.id visited m.id)

module _ (rfc3339 : ℕ → String) (heap : List Node) where
  -- The visit ends, and forgets nothing that was visited.
  abbrev Ends : (ℕ → Progress → Option Progress) → ℕ → Progress → Type 0
  Ends visit a p = (q : Progress) × (visit a p ≡ some q) × Covers q.visited p.visited

  visit_edges-Ends :
      (visit : ℕ → Progress → Option Progress) (edges : List Edge) (p : Progress) (bound : ℕ)
      → ((a : ℕ) (q : Progress) → unvisited heap q.visited < bound → Ends visit a q)
      → unvisited heap p.visited < bound
      → (q : Progress) × (visit_edges visit edges p ≡ some q) × Covers q.visited p.visited
  unfolding visit_edges
  visit_edges-Ends visit [] p bound h k = (p, refl, λ id v. v)
  visit_edges-Ends visit (e ∷ edges) p bound h k =
      let (q, first, covers) = h e.target p k in
      let less = unvisited-Covers heap q.visited p.visited covers in
      let (r, rest, covers') = visit_edges-Ends visit edges q bound h (omega (arith, less, k)) in
      (r, ground (arith, first, rest), λ id v. covers' id (covers id v))

  dfs_timeline-Ends :
      (fuel a : ℕ) (p : Progress)
      → unvisited heap p.visited < fuel
      → Ends (dfs_timeline rfc3339 fuel heap) a p
  unfolding dfs_timeline visit_node
  dfs_timeline-Ends zero a p h = absurd (omega (arith, h))
  dfs_timeline-Ends (suc fuel) a p h = elim (Option-cases (get_elem? heap a)) [
    | inl gone ↦ (p, ground (arith, gone), λ id v. v)
    | inr (n, here) ↦ elim (Bool-cases (is_visited p.visited n.id)) [
      | inl seen ↦ (p, ground (arith, here, seen), λ id v. v)
      | inr new ↦
          let p' = visit_node rfc3339 n p in
          let (q, rest, covers) =
            visit_edges-Ends (dfs_timeline rfc3339 fuel heap) n.edges p' fuel
              (λ b r bound. dfs_timeline-Ends fuel b r bound) (less n here new) in
          (q, ground (arith, here, new, rest), λ id v. covers id (Covers-visit n.id p.visited id v))
    ]
  ]
    where
      less :
          (n : Node)
          → get_elem? heap a ≡ some n
          → is_visited p.visited n.id ≡ false
          → unvisited heap (visit_node rfc3339 n p).visited < fuel
      less n here new = omega (arith, h, unvisited-visit heap a n p.visited here new)

few : (heap : List Node) (fuel : ℕ) → length heap < fuel → unvisited heap [] < fuel
unfolding unvisited
few heap fuel h = omega (arith, h, length-keep-le (λ (n : Node). not (is_visited [] n.id)) heap)

-- ReconstructTimeline ends whatever events made the graph, cycles and all: one unit of fuel more
-- than there are nodes suffices.
pub reconstruct_total :
    (rfc3339 : ℕ → String) (fnv32a : String → ℕ) (e : Engine) (pid : ℤ) (fuel : ℕ)
    → length e.heap < fuel
    → (r : Reply) × (reconstruct_timeline rfc3339 fnv32a fuel e pid ≡ some r)
unfolding reconstruct_timeline
reconstruct_total rfc3339 fnv32a e pid fuel h =
    elim (Option-cases (find_node fnv32a e ("process:" ^^ show_int pid))) [
      | inl missing ↦ (not_found pid, ground (arith, missing))
      | inr (a, hit) ↦
          let (q, done, covers) =
            dfs_timeline-Ends rfc3339 e.heap fuel a (record { visited = []; timeline = [] })
              (few e.heap fuel h) in
          (found (sort_texts q.timeline), ground (arith, hit, done))
    ]
