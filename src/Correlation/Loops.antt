-- ===== src/Correlation/Loops.antt =====
-- A process that is its own parent.
use aegis_edr.Prelude.{
  ℕ, zero, suc, ◌≡◌, refl, ℤ, none, some, List, [], ◌∷◌, ◌++◌, arith, string_eq, int_eq, length,
  get_elem?, update, get_elem-update_last,
}
use aegis_edr.Dict.{get, put, get-put_self}
use aegis_edr.Telemetry.{Event}
use aegis_edr.Correlation.{
  ProcessNode, Engine, expire, process_node, add_child, with_node, correlate_process, correlate,
}
use aegis_edr.Correlation.Timeline.{visit_all, collect, query}

module _ {ℓ} {X : Type ℓ} (own : ProcessNode → List X) where
  collect_loops :
      (heap : List ProcessNode) (a : ℕ) (n : ProcessNode)
      → get_elem? heap a ≡ some n
      → n.children ≡ a ∷ []
      → (fuel : ℕ) → collect own fuel heap a ≡ none
  unfolding collect visit_all
  collect_loops heap a n here loop zero = refl
  collect_loops heap a n here loop (suc fuel) =
      ground (arith, here, loop, collect_loops heap a n here loop fuel)

  query_lost :
      (e : Engine) (pid : ℤ) (a fuel : ℕ)
      → get e.nodes pid ≡ some a
      → collect own fuel e.heap a ≡ none
      → query own fuel e pid ≡ none
  unfolding query
  query_lost e pid a fuel hit lost = ground (arith, hit, lost)

  -- Once a process starts as its own parent, a query on it has no end, whatever the engine held
  -- before: no fuel suffices.
  pub query_self_parent :
      (e : Engine) (ev : Event) (now fuel : ℕ)
      → ev.type ≡ "process"
      → ev.parent_id ≡ ev.process_id
      → query own fuel (correlate e ev now) ev.process_id ≡ none
  unfolding query correlate correlate_process with_node add_child process_node
  query_self_parent e ev now fuel is_process self =
      let n = length e.heap in
      let nodes = put (expire e now) ev.process_id n in
      let child = add_child n (process_node ev) in
      let looped =
        collect_loops (update n (add_child n) (e.heap ++ process_node ev ∷ [])) n child
          (get_elem-update_last (add_child n) e.heap (process_node ev)) refl fuel in
      rw
        (
          is_process,
          self,
          correlate,
          correlate_process,
          with_node,
          get-put_self (expire e now) ev.process_id n,
        )
        (query_lost
          (record e {
            heap = update n (add_child n) (e.heap ++ process_node ev ∷ []);
            nodes = nodes;
          })
          ev.process_id n fuel (get-put_self (expire e now) ev.process_id n) looped)
