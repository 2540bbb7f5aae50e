-- ===== src/Nextgen/Search.antt =====
-- internal/correlation/nextgen/engine.go: ReconstructTimeline and its depth-first search.
use Prim.Native.String.{compare}
use Prim.Native.Nat.{Ordering}
use aegis_edr.Prelude.{
  ℕ, zero, suc, ℤ, String, Option, none, some, List, [], ◌∷◌, ◌++◌, Bool, true, false,
  if◌then◌else◌, ◌==◌, string_eq, any, get_elem?, ◌^^◌, show_int,
}
use aegis_edr.Nextgen.{Edge, Node, Engine, find_node}

-- The IDs visited, and the lines of the timeline.
pub record Progress : Type 0 where
  pub visited : List String
  pub timeline : List String

-- visited[id]
unfoldable pub is_visited : List String → String → Bool
is_visited visited id = any (λ v. v == id) visited

unfoldable pub visit_edges :
    (ℕ → Progress → Option Progress) → List Edge → Progress → Option Progress
visit_edges visit [] p = some p
visit_edges visit (edge ∷ edges) p = elim (visit edge.target p) [
  | none ↦ none
  | some q ↦ visit_edges visit edges q
]

module _ (rfc3339 : ℕ → String) where
  unfoldable pub node_line : Node → String
  node_line n = "[" ^^ rfc3339 n.timestamp ^^ "] [" ^^ n.type ^^ "] " ^^ n.id

  unfoldable pub visit_node : Node → Progress → Progress
  visit_node n p = record { visited = n.id ∷ p.visited; timeline = p.timeline ++ node_line n ∷ [] }

  -- dfsTimeline; `none` says that the fuel did not suffice.
  unfoldable pub dfs_timeline : ℕ → List Node → ℕ → Progress → Option Progress
  dfs_timeline zero heap a p = none
  dfs_timeline (suc fuel) heap a p = elim (get_elem? heap a) [
    | none ↦ some p
    | some n ↦ elim (is_visited p.visited n.id) [
      | true ↦ some p
      | false ↦ visit_edges (dfs_timeline fuel heap) n.edges (visit_node n p)
    ]
  ]

-- `<=` of texts, and the sort by it.
unfoldable pub le_text : String → String → Bool
le_text s t = elim (compare s t) [ Ordering.gt ↦ false | _ ↦ true ]

unfoldable pub insert_text : String → List String → List String
insert_text s [] = s ∷ []
insert_text s (t ∷ ts) =
    let later = insert_text s ts in if le_text s t then s ∷ t ∷ ts else t ∷ later

unfoldable pub sort_texts : List String → List String
sort_texts [] = []
sort_texts (s ∷ ss) = insert_text s (sort_texts ss)

pub data Reply : Type 0 where
  not_found : ℤ → Reply
  found : List String → Reply

unfoldable pub reconstruct_timeline : (ℕ → String) → (String → ℕ) → ℕ → Engine → ℤ → Option Reply
reconstruct_timeline rfc3339 fnv32a fuel e pid =
    elim (find_node fnv32a e ("process:" ^^ show_int pid)) [
      | none ↦ some (not_found pid)
      | some a ↦
          elim (dfs_timeline rfc3339 fuel e.heap a (record { visited = []; timeline = [] })) [
            | none ↦ none
            | some p ↦ some (found (sort_texts p.timeline))
          ]
    ]
