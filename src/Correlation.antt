-- ===== src/Correlation.antt =====
-- internal/correlation/engine.go: a tree of the processes seen, with what each of them did. The
-- nodes are allocated on a heap, and an address is a place there: two maps and a list of children
-- may hold the same node. A node that `nodes` no longer names stays a child of its parent.
pub mod Timeline
pub mod Forest
pub mod Tree
pub mod Order
pub mod Loops
mod Tests
use aegis_edr.Prelude.{
  ℕ, zero, suc, ◌+◌, ℤ, String, Option, none, some, List, [], ◌∷◌, ◌++◌, Bool, true, false,
  if◌then◌else◌, ◌==◌, string_eq, int_eq, not, ltb, leb, length, get_elem?, update, ◌^^◌, show_int,
  map,
}
use aegis_edr.Dict.{Dict, empty, get, put, retain}
use aegis_edr.Telemetry.{Event}

pub record FileActivity : Type 0 where
  pub file_path : String
  pub action : String
  pub occurred_at : ℕ

pub record NetworkActivity : Type 0 where
  pub protocol : String
  pub remote_ip : String
  pub remote_port : ℤ
  pub occurred_at : ℕ

pub record RegistryActivity : Type 0 where
  pub key_path : String
  pub action : String
  pub occurred_at : ℕ

pub record AlertActivity : Type 0 where
  pub rule_name : String
  pub description : String
  pub occurred_at : ℕ

pub record ProcessNode : Type 0 where
  pub pid : ℤ
  pub parent_pid : ℤ
  pub binary_path : String
  pub command_line : String
  pub username : String
  pub launched_at : ℕ
  pub file_changes : List FileActivity
  pub net_connects : List NetworkActivity
  pub registry_keys : List RegistryActivity
  pub alerts : List AlertActivity
  pub children : List ℕ

pub record Engine : Type 0 where
  pub heap : List ProcessNode
  pub nodes : Dict ℤ ℕ
  pub window : ℕ

unfoldable pub new_engine : ℕ → Engine
new_engine window = record { heap = []; nodes = empty; window = window }

-- !(now.Sub(node.LaunchedAt) > e.window)
unfoldable pub in_window : ℕ → ℕ → Option ProcessNode → Bool
in_window window now none = true
in_window window now (some n) = not (ltb (n.launched_at + window) now)

-- The loop that drops the nodes that are out of the window.
unfoldable pub expire : Engine → ℕ → Dict ℤ ℕ
unfolding in_window
expire e now = retain (λ a. in_window e.window now (get_elem? e.heap a)) e.nodes

unfoldable pub process_node : Event → ProcessNode
process_node ev = record {
  pid = ev.process_id;
  parent_pid = ev.parent_id;
  binary_path = ev.binary_path;
  command_line = ev.command_line;
  username = ev.username;
  launched_at = ev.timestamp;
  file_changes = [];
  net_connects = [];
  registry_keys = [];
  alerts = [];
  children = [];
}

unfoldable pub add_child : ℕ → ProcessNode → ProcessNode
add_child child n = record n { children = n.children ++ child ∷ [] }

unfoldable pub add_file : Event → ProcessNode → ProcessNode
add_file ev n = record n {
  file_changes =
      n.file_changes
      ++ record { file_path = ev.file_path; action = ev.file_action; occurred_at = ev.timestamp }
        ∷ [];
}

unfoldable pub add_network : Event → ProcessNode → ProcessNode
add_network ev n = record n {
  net_connects =
      n.net_connects
      ++ record {
        protocol = ev.protocol;
        remote_ip = ev.remote_ip;
        remote_port = ev.remote_port;
        occurred_at = ev.timestamp;
      }
        ∷ [];
}

unfoldable pub add_registry : Event → ProcessNode → ProcessNode
add_registry ev n = record n {
  registry_keys =
      n.registry_keys
      ++ record { key_path = ev.file_path; action = ev.file_action; occurred_at = ev.timestamp }
        ∷ [];
}

unfoldable pub add_alert : String → String → ℕ → ProcessNode → ProcessNode
add_alert rule_name description now n = record n {
  alerts =
      n.alerts
      ++ record { rule_name = rule_name; description = description; occurred_at = now } ∷ [];
}

-- `if node, exists := e.nodes[pid]; exists { ... }`
unfoldable pub with_node : ℤ → (ProcessNode → ProcessNode) → Engine → Engine
with_node pid f e = elim (get e.nodes pid) [
  | none ↦ e
  | some a ↦ record e { heap = update a f e.heap }
]

unfoldable pub correlate_process : Engine → Event → Engine
correlate_process e ev =
    let child = length e.heap in
    with_node ev.parent_id (add_child child)
      (record e { heap = e.heap ++ process_node ev ∷ []; nodes = put e.nodes ev.process_id child })

unfoldable pub correlate : Engine → Event → ℕ → Engine
correlate e ev now =
    let live : Engine = record e { nodes = expire e now } in
    if ev.type == "process"
    then correlate_process live ev
    else if ev.type == "file"
    then with_node ev.process_id (add_file ev) live
    else if ev.type == "network"
    then with_node ev.process_id (add_network ev) live
    else if ev.type == "registry"
    then with_node ev.process_id (add_registry ev) live
    else live

unfoldable pub record_alert : Engine → ℤ → String → String → ℕ → Engine
record_alert e pid rule_name description now = with_node pid (add_alert rule_name description now) e
