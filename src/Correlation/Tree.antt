-- ===== src/Correlation/Tree.antt =====
-- Without a process that is its own parent, the nodes are a forest, and the queries end.
use aegis_edr.Prelude.{
  ℕ, zero, suc, ◌+◌, ◌≡◌, ◌≢◌, ◌≤◌, ◌<◌, refl, sym, ◌∙◌, inl, inr, ℤ, String, Option, some, List,
  [], ◌∷◌, ◌++◌, Bool, true, false, arith, if◌then◌else◌, ◌==◌, string_eq, int_eq, length,
  length-append, get_elem?, update, length-update, All, All-append, Option-cases,
}
use aegis_edr.Dict.{get, put, when, get-put, get-retain, get-empty}
use aegis_edr.Telemetry.{Event}
use aegis_edr.Correlation.{
  ProcessNode, Engine, new_engine, expire, process_node, add_child, add_file, add_network,
  add_registry, add_alert, with_node, correlate_process, correlate, record_alert,
}
use aegis_edr.Correlation.Forest.{
  IsYounger, IsForest, grow-IsForest, append-IsForest, children-IsForest, update-IsForest,
}
use aegis_edr.Correlation.Timeline.{visit_all, collect, query, Reply, found, not_found}

-- Children are later nodes, and `nodes` names nodes that exist.
pub record IsTree (e : Engine) : Type 0 where
  pub forest : IsForest (length e.heap) 0 e.heap
  pub live : (pid : ℤ) (a : ℕ) → get e.nodes pid ≡ some a → a < length e.heap

pub new-IsTree : (window : ℕ) → IsTree (new_engine window)
unfolding new_engine
new-IsTree window = record {
  forest = tt;
  live = λ pid a h. absurd (ground (arith, get-empty {K = ℤ} {V = ℕ} pid));
}

-- A write that leaves the children of every node as they are.
abbrev Childless : (ProcessNode → ProcessNode) → Type 0
Childless f = (n : ProcessNode) → (f n).children ≡ n.children

update-IsTree :
    (e : Engine) (i : ℕ) (f : ProcessNode → ProcessNode)
    → ((n : ProcessNode)
        → All (IsYounger (length e.heap) i) n.children
        → All (IsYounger (length e.heap) i) (f n).children)
    → IsTree e
    → IsTree (record e { heap = update i f e.heap })
update-IsTree e i f h p = record {
  forest = rw (length-update i f e.heap) (
      update-IsForest (length e.heap) 0 i f e.heap
        (λ n q. rw (add_zero i) (h n (rw⁻¹ (add_zero i) q))) p.forest);
  live = λ pid a g. rw (length-update i f e.heap) (p.live pid a g);
}
  where
    add_zero : (i : ℕ) → 0 + i ≡ i
    add_zero i = omega arith

with_node-IsTree :
    (pid : ℤ) (f : ProcessNode → ProcessNode) (e : Engine)
    → Childless f
    → IsTree e
    → IsTree (with_node pid f e)
unfolding with_node
with_node-IsTree pid f e h p = elim (Option-cases (get e.nodes pid)) [
  | inl missing ↦ rw (missing, with_node) p
  | inr (a, hit) ↦ rw (hit, with_node) (update-IsTree e a f (λ n q. rw (h n) q) p)
]

expire-IsTree : (e : Engine) (now : ℕ) → IsTree e → IsTree (record e { nodes = expire e now })
unfolding expire
expire-IsTree e now p = record {
  forest = p.forest;
  live = λ pid a g. p.live pid a (kept _ (get e.nodes pid) a (sym (get-retain _ e.nodes pid) ∙ g));
}
  where
    kept : (keep : ℕ → Bool) (o : Option ℕ) (a : ℕ) → when keep o ≡ some a → o ≡ some a
    kept keep o a h = ground arith

spawn-IsTree :
    (e : Engine) (ev : Event)
    → IsTree e
    → IsTree (record e {
      heap = e.heap ++ process_node ev ∷ [];
      nodes = put e.nodes ev.process_id (length e.heap);
    })
unfolding process_node
spawn-IsTree e ev p = record {
  forest =
      grow-IsForest (length e.heap) (length (e.heap ++ process_node ev ∷ [])) 0
        (e.heap ++ process_node ev ∷ []) (omega (arith, one_more))
        (append-IsForest (length e.heap) 0 e.heap (process_node ev) childless p.forest);
  live = λ pid a g.
      ground (arith, one_more, get-put e.nodes ev.process_id pid (length e.heap), p.live pid a);
}
  where
    one_more : length (e.heap ++ process_node ev ∷ []) ≡ length e.heap + 1
    one_more = omega (arith, length-append e.heap (process_node ev ∷ []))

    childless : (process_node ev).children ≡ []
    childless = refl

correlate_process-IsTree :
    (e : Engine) (ev : Event)
    → ev.process_id ≢ ev.parent_id
    → IsTree e
    → IsTree (correlate_process e ev)
unfolding correlate_process with_node add_child
correlate_process-IsTree e ev h p =
    let grown = e.heap ++ process_node ev ∷ [] in
    let nodes = put e.nodes ev.process_id (length e.heap) in
    let spawned : Engine = record e { heap = grown; nodes = nodes } in
    let q = spawn-IsTree e ev p in
    elim (Option-cases (get nodes ev.parent_id)) [
      | inl missing ↦ rw (missing, correlate_process, with_node) q
      | inr (a, hit) ↦
          rw (hit, correlate_process, with_node)
            (update-IsTree spawned a (add_child (length e.heap))
              (λ n younger.
                All-append (IsYounger (length grown) a) n.children (length e.heap ∷ []) younger
                  ((older a hit, bound), tt))
              q)
    ]
  where
    bound : length e.heap < length (e.heap ++ process_node ev ∷ [])
    bound = omega (arith, length-append e.heap (process_node ev ∷ []))

    older :
        (a : ℕ)
        → get (put e.nodes ev.process_id (length e.heap)) ev.parent_id ≡ some a
        → a < length e.heap
    older a hit = ground (
      arith,
      get-put e.nodes ev.process_id ev.parent_id (length e.heap),
      p.live ev.parent_id a,
      int_eq.same_iff ev.process_id ev.parent_id,
    )

if-IsTree :
    (b : Bool) (e e' : Engine) → (b ≡ true → IsTree e) → IsTree e' → IsTree (if b then e else e')
if-IsTree true e e' h p = h refl
if-IsTree false e e' h p = p

correlate-IsTree :
    (e : Engine) (ev : Event) (now : ℕ)
    → (ev.type ≡ "process" → ev.process_id ≢ ev.parent_id)
    → IsTree e
    → IsTree (correlate e ev now)
unfolding correlate add_file add_network add_registry
correlate-IsTree e ev now h p =
    let expired : Engine = record e { nodes = expire e now } in
    let q = expire-IsTree e now p in
    if-IsTree (ev.type == "process") (correlate_process expired ev) _
      (λ is_process.
        correlate_process-IsTree expired ev
          (h ((string_eq.same_iff ev.type "process").0 is_process)) q)
      (if-IsTree (ev.type == "file") (with_node ev.process_id (add_file ev) expired) _
        (λ _. with_node-IsTree ev.process_id (add_file ev) expired (λ n. refl) q)
        (if-IsTree (ev.type == "network") (with_node ev.process_id (add_network ev) expired) _
          (λ _. with_node-IsTree ev.process_id (add_network ev) expired (λ n. refl) q)
          (if-IsTree (ev.type == "registry") (with_node ev.process_id (add_registry ev) expired)
            expired (λ _. with_node-IsTree ev.process_id (add_registry ev) expired (λ n. refl) q)
            q)))

-- The calls that change an engine.
pub data Call : Type 0 where
  correlates : Event → ℕ → Call
  alerts : ℤ → String → String → ℕ → Call

unfoldable pub run : Engine → List Call → Engine
run e [] = e
run e (correlates ev now ∷ cs) = run (correlate e ev now) cs
run e (alerts pid name text now ∷ cs) = run (record_alert e pid name text now) cs

-- No process that starts is its own parent.
abbrev pub IsParented : Call → Type 0
IsParented (correlates ev now) = ev.type ≡ "process" → ev.process_id ≢ ev.parent_id
IsParented (alerts pid name text now) = Unit

run-IsTree : (e : Engine) (cs : List Call) → All IsParented cs → IsTree e → IsTree (run e cs)
unfolding run record_alert add_alert
run-IsTree e [] h p = p
run-IsTree e (correlates ev now ∷ cs) h p =
    run-IsTree (correlate e ev now) cs h.1 (correlate-IsTree e ev now h.0 p)
run-IsTree e (alerts pid name text now ∷ cs) h p =
    run-IsTree (record_alert e pid name text now) cs h.1
      (with_node-IsTree pid (add_alert name text now) e (λ n. refl) p)

module _ {ℓ} {X : Type ℓ} (own : ProcessNode → List X) where
  visit_all_total :
      (limit fuel a : ℕ) (heap : List ProcessNode) (cs : List ℕ)
      → ((c : ℕ) → IsYounger limit a c → (xs : List X) × (collect own fuel heap c ≡ some xs))
      → All (IsYounger limit a) cs
      → (xs : List X) × (visit_all (collect own fuel heap) cs ≡ some xs)
  unfolding visit_all
  visit_all_total limit fuel a heap [] h p = ([], refl)
  visit_all_total limit fuel a heap (c ∷ cs) h (p, ps) =
      let (xs, first) = h c p in
      let (ys, rest) = visit_all_total limit fuel a heap cs h ps in
      (xs ++ ys, ground (arith, first, rest))

  collect_total :
      (fuel a : ℕ) (heap : List ProcessNode)
      → IsForest (length heap) 0 heap
      → a < length heap
      → length heap ≤ a + fuel
      → (xs : List X) × (collect own fuel heap a ≡ some xs)
  unfolding collect
  collect_total zero a heap p h k = absurd (omega (arith, h, k))
  collect_total (suc fuel) a heap p h k = elim (Option-cases (get_elem? heap a)) [
    | inl none_here ↦ ([], ground (arith, none_here))
    | inr (n, here) ↦
        let (xs, rest) =
          visit_all_total (length heap) fuel (0 + a) heap n.children
            (λ c q. collect_total fuel c heap p q.1 (omega (arith, q.0, k)))
            (children-IsForest (length heap) 0 a heap n p here) in
        (own n ++ xs, ground (arith, here, rest))
  ]

  -- Whatever happened, as long as no process started as its own parent, a query on a process ends:
  -- as much fuel as there were nodes suffices, and the answer is that the process is not in the
  -- window or a list of what it and its descendants contributed.
  pub query_total :
      (window : ℕ) (cs : List Call) (pid : ℤ) (fuel : ℕ)
      → All IsParented cs
      → length (run (new_engine window) cs).heap ≤ fuel
      → (r : Reply (List X)) × (query own fuel (run (new_engine window) cs) pid ≡ some r)
  unfolding query
  query_total window cs pid fuel h k =
      let e = run (new_engine window) cs in
      let tree = run-IsTree (new_engine window) cs h (new-IsTree window) in
      elim (Option-cases (get e.nodes pid)) [
        | inl missing ↦ (not_found pid, ground (arith, missing))
        | inr (a, hit) ↦
            let (xs, done) =
              collect_total fuel a e.heap tree.forest (tree.live pid a hit) (omega (arith, k)) in
            (found xs, ground (arith, hit, done))
      ]
