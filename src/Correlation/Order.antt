-- ===== src/Correlation/Order.antt =====
-- The order of a timeline.
use mathlib.Core.List.{Perm, append_assoc}
use mathlib.Core.Path.{ap₂}
use aegis_edr.Prelude.{
  ℕ, zero, suc, refl, sym, ap, subst, ◌∙◌, Option, some, [], ◌∷◌, ◌++◌, get_elem?, ◌≡◌, ◌≤◌, ℤ,
  none, List, arith, All, Option-cases, inl, inr, length, int_eq,
}
use aegis_edr.Dict.{get}
use aegis_edr.Correlation.{ProcessNode, Engine, new_engine}
use aegis_edr.Sort.{IsSorted, sort-IsSorted, sort-Perm}
use aegis_edr.Correlation.Tree.{Call, run, IsParented, query_total}
use aegis_edr.Correlation.Timeline.{
  TimelineItem, own_items, visit_all, collect, query, sort_items, sorted_reply,
  reconstruct_timeline, Reply, found, not_found,
}

-- A node and the nodes below it, each child's after those of the children before it: what a heap
-- says of descent, whatever the code does to walk it.
mutual
  pub data Subtree (heap : List ProcessNode) : ℕ → List ProcessNode → Type 0 where
    node :
        {a : ℕ} {below : List ProcessNode} (n : ProcessNode)
        → get_elem? heap a ≡ some n
        → Subtrees heap n.children below
        → Subtree heap a (n ∷ below)
    nowhere : {a : ℕ} → get_elem? heap a ≡ none → Subtree heap a []

  pub data Subtrees (heap : List ProcessNode) : List ℕ → List ProcessNode → Type 0 where
    no_children : Subtrees heap [] []
    child :
        {a : ℕ} {rest : List ℕ} {first others : List ProcessNode}
        → Subtree heap a first
        → Subtrees heap rest others
        → Subtrees heap (a ∷ rest) (first ++ others)

-- What the nodes contributed.
abbrev pub contributed : {X : Type 0} → (ProcessNode → List X) → List ProcessNode → List X
contributed own [] = []
contributed own (n ∷ nodes) = own n ++ contributed own nodes

module _ {X : Type 0} (own : ProcessNode → List X) (heap : List ProcessNode) where
  contributed-append :
      (ns ms : List ProcessNode)
      → contributed own (ns ++ ms) ≡ contributed own ns ++ contributed own ms
  contributed-append [] ms = refl
  contributed-append (n ∷ ns) ms =
      ap (λ xs. own n ++ xs) (contributed-append ns ms)
      ∙ sym (append_assoc (own n) (contributed own ns) (contributed own ms))

  -- A walk of one address collects what its subtree contributed.
  abbrev Walks : (ℕ → Option (List X)) → Type 0
  Walks visit =
      (a : ℕ) (xs : List X)
      → visit a ≡ some xs
      → (nodes : List ProcessNode) × Subtree heap a nodes × (xs ≡ contributed own nodes)

  visit_all-Subtrees :
      (visit : ℕ → Option (List X)) (ids : List ℕ) (xs : List X)
      → Walks visit
      → visit_all visit ids ≡ some xs
      → (nodes : List ProcessNode) × Subtrees heap ids nodes × (xs ≡ contributed own nodes)
  unfolding visit_all
  visit_all-Subtrees visit [] xs walks done = ([], no_children, ground (arith, done))
  visit_all-Subtrees visit (a ∷ ids) xs walks done = elim (Option-cases (visit a)) [
    | inl lost ↦ absurd (ground (arith, lost, done))
    | inr (ys, first) ↦ elim (Option-cases (visit_all visit ids)) [
      | inl lost ↦ absurd (ground (arith, first, lost, done))
      | inr (zs, others) ↦
          let (ns, tree, from) = walks a ys first in
          let (ms, trees, from') = visit_all-Subtrees visit ids zs walks others in
          let both : ys ++ zs ≡ xs = ground (arith, first, others, done) in
          (
            ns ++ ms,
            child tree trees,
            sym both ∙ ap₂ (λ us vs. us ++ vs) from from' ∙ sym (contributed-append ns ms),
          )
    ]
  ]

  collect-Subtree : (fuel : ℕ) → Walks (collect own fuel heap)
  unfolding collect
  collect-Subtree zero a xs done = absurd (ground (arith, done))
  collect-Subtree (suc fuel) a xs done = elim (Option-cases (get_elem? heap a)) [
    | inl missing ↦ ([], nowhere missing, ground (arith, missing, done))
    | inr (n, there) ↦ elim (Option-cases (visit_all (collect own fuel heap) n.children)) [
      | inl lost ↦ absurd (ground (arith, there, lost, done))
      | inr (rest, all) ↦
          let (nodes, trees, from) =
            visit_all-Subtrees (collect own fuel heap) n.children rest (collect-Subtree fuel) all in
          let whole : own n ++ rest ≡ xs = ground (arith, there, all, done) in
          (n ∷ nodes, node n there trees, sym whole ∙ ap (λ us. own n ++ us) from)
    ]
  ]

-- What a timeline of a process should be: an error for a process that is not in the window, and
-- otherwise all that it and its descendants contributed, in the order of time.
pub data IsTimeline (e : Engine) (pid : ℤ) : Reply (List TimelineItem) → Type 0 where
  missing : get e.nodes pid ≡ none → IsTimeline e pid (not_found pid)
  ordered :
      (a : ℕ) (nodes : List ProcessNode) (items : List TimelineItem)
      → get e.nodes pid ≡ some a
      → Subtree e.heap a nodes
      → Perm items (contributed own_items nodes)
      → IsSorted (λ (i : TimelineItem). i.timestamp) items
      → IsTimeline e pid (found items)

sorted-IsTimeline :
    (fuel : ℕ) (e : Engine) (pid : ℤ) (r : Reply (List TimelineItem))
    → query own_items fuel e pid ≡ some r
    → (t : Reply (List TimelineItem)) × (reconstruct_timeline fuel e pid ≡ some t)
      × IsTimeline e pid t
unfolding query reconstruct_timeline sorted_reply sort_items
sorted-IsTimeline fuel e pid r done = elim (Option-cases (get e.nodes pid)) [
  | inl none_here ↦ (not_found pid, ground (arith, none_here), missing none_here)
  | inr (a, hit) ↦ elim (Option-cases (collect own_items fuel e.heap a)) [
    | inl lost ↦ absurd (ground (arith, hit, lost, done))
    | inr (is, all) ↦
        let by_time = λ (i : TimelineItem). i.timestamp in
        let (nodes, tree, from) = collect-Subtree own_items e.heap fuel a is all in
        (
          found (sort_items is),
          ground (arith, hit, all),
          ordered a nodes (sort_items is) hit tree
              (subst (Perm (sort_items is)) from (sort-Perm by_time is)) (sort-IsSorted by_time is),
        )
  ]
]

-- Whatever happened, as long as no process started as its own parent, ReconstructTimeline answers,
-- given as much fuel as there were nodes: with an error for a process that is not in the window, and
-- otherwise with all that the nodes of its subtree in the heap contributed, ordered by time.
pub reconstruct-IsTimeline :
    (window : ℕ) (cs : List Call) (pid : ℤ) (fuel : ℕ)
    → All IsParented cs
    → length (run (new_engine window) cs).heap ≤ fuel
    → (t : Reply (List TimelineItem)) × (reconstruct_timeline fuel (run (new_engine window) cs) pid
        ≡ some t)
      × IsTimeline (run (new_engine window) cs) pid t
reconstruct-IsTimeline window cs pid fuel h k =
    let (r, done) = query_total own_items window cs pid fuel h k in
    sorted-IsTimeline fuel (run (new_engine window) cs) pid r done
