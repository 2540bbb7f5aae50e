-- ===== src/Nextgen/Bounce.antt =====
-- What the edges in both directions between a process and its parent do to the rules.
use aegis_edr.Prelude.{
  ℕ, zero, suc, ◌+◌, ◌≡◌, ◌≢◌, ◌≤◌, refl, ap, ◌∙◌, inl, inr, String, some, List, [], ◌∷◌, ◌++◌,
  true, arith, ◌==◌, string_eq, le→leb, get_elem?, update, length, get_elem-update,
  get_elem-update_other, get_elem-append, get_elem-append_last, get_elem-lt, ◌^^◌, show_int,
  to_upper,
}
use aegis_edr.Telemetry.{Event}
use aegis_edr.Nextgen.{
  Edge, Node, Engine, new_node, add_edge, is_positive, find_node, add_node, link_parent,
  extend_graph,
}
use aegis_edr.Nextgen.Rules.{in_time, check_sequence}
use aegis_edr.Nextgen.Sequence.{HasEdge, IsChain, ends, links, IsChain-found}

abbrev pub repeat : ℕ → String → List String
repeat zero t = []
repeat (suc k) t = t ∷ repeat k t

HasEdge-last : (edges : List Edge) (e : Edge) → HasEdge (edges ++ e ∷ []) e.target
HasEdge-last [] e = inl refl
HasEdge-last (d ∷ edges) e = inr (HasEdge-last edges e)

bounces :
    (heap : List Node) (window : ℕ) (t : String) (k a b : ℕ) (n m : Node)
    → get_elem? heap a ≡ some n
    → get_elem? heap b ≡ some m
    → n.type ≡ t
    → m.type ≡ t
    → HasEdge n.edges b
    → HasEdge m.edges a
    → in_time window n m ≡ true
    → in_time window m n ≡ true
    → (c : List ℕ) × IsChain heap window (repeat (suc k) t) a c
bounces heap window t zero a b n m here there nt mt ab ba early late = (a ∷ [], ends n here nt)
bounces heap window t (suc k) a b n m here there nt mt ab ba early late =
    let (c, chain) = bounces heap window t k b a m n there here mt nt ba ab late early in
    (a ∷ c, links n m here nt ab there early chain)

upper_process : to_upper "process" ≡ "PROCESS"
unfolding to_upper
upper_process = refl

heap-extend_graph :
    (fnv32a : String → ℕ) (e : Engine) (ev : Event) (now p : ℕ)
    → (ev.type == "process") ≡ true
    → is_positive ev.parent_id ≡ true
    → find_node fnv32a (add_node fnv32a e ev now) ("process:" ^^ show_int ev.parent_id) ≡ some p
    → (extend_graph fnv32a e ev now).heap
      ≡ update
          (length e.heap)
          (add_edge (record { type = "PARENT_OF"; target = p; timestamp = ev.timestamp }))
          (update p
            (add_edge
              (record { type = "SPAWNED"; target = length e.heap; timestamp = ev.timestamp }))
            (e.heap ++ new_node ev ∷ []))
unfolding extend_graph link_parent add_node
heap-extend_graph fnv32a e ev now p is_process has_parent known =
    rw (is_process, has_parent, extend_graph, link_parent, known) refl

-- When a process starts whose parent is in the graph, less than a rule's window apart, the rule
-- matches whatever number of processes its sequence asks for.
pub check_sequence_bounces :
    (fnv32a : String → ℕ) (e : Engine) (ev : Event) (now window k p : ℕ) (parent : Node)
    → ev.type ≡ "process"
    → is_positive ev.parent_id ≡ true
    → find_node fnv32a (add_node fnv32a e ev now) ("process:" ^^ show_int ev.parent_id) ≡ some p
    → get_elem? e.heap p ≡ some parent
    → parent.type ≡ "PROCESS"
    → parent.timestamp ≤ ev.timestamp + window
    → ev.timestamp ≤ parent.timestamp + window
    → (c : List ℕ) × (check_sequence
          (extend_graph fnv32a e ev now).heap
          window
          (repeat (suc k) "PROCESS")
          (length e.heap)
          []
        ≡ some c)
unfolding new_node add_edge in_time
check_sequence_bounces fnv32a e ev now window k p parent is_process has_parent known there is_t
      early late =
    let child = length e.heap in
    let older = get_elem-lt e.heap p parent there in
    let apart : child ≢ p = ground (arith, older) in
    let apart' : p ≢ child = ground (arith, older) in
    let spawned : Edge = record { type = "SPAWNED"; target = child; timestamp = ev.timestamp } in
    let parent_of : Edge = record { type = "PARENT_OF"; target = p; timestamp = ev.timestamp } in
    let node = new_node ev in
    let grown = e.heap ++ node ∷ [] in
    let spawn = update p (add_edge spawned) grown in
    let heap = update child (add_edge parent_of) spawn in
    let child_here : get_elem? heap child ≡ some (add_edge parent_of node) =
      get_elem-update child (add_edge parent_of) spawn node (
        get_elem-update_other p child (add_edge spawned) grown apart'
        ∙ get_elem-append_last e.heap node) in
    let parent_here : get_elem? heap p ≡ some (add_edge spawned parent) =
      get_elem-update_other child p (add_edge parent_of) spawn apart
      ∙ get_elem-update p (add_edge spawned) grown parent
          (get_elem-append e.heap (node ∷ []) p parent there) in
    let (c, chain) =
      bounces heap window "PROCESS" k child p (add_edge parent_of node) (add_edge spawned parent)
        child_here parent_here (ap to_upper is_process ∙ upper_process) is_t
        (HasEdge-last [] parent_of) (HasEdge-last parent.edges spawned)
        (le→leb parent.timestamp (ev.timestamp + window) early)
        (le→leb ev.timestamp (parent.timestamp + window) late) in
    rw
      (heap-extend_graph fnv32a e ev now p ((string_eq.same_iff ev.type "process").1 is_process)
        has_parent known)
      (IsChain-found heap window chain [])
