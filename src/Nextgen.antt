-- ===== src/Nextgen.antt =====
-- internal/correlation/nextgen/engine.go: a graph of what was seen, in shards, and the rules that
-- look for a sequence in it. The nodes are allocated on a heap, and a pointer is a place there.
-- FNV-1a and the RFC 3339 format are functions of the library that the engine is given.
pub mod Bounce
pub mod Rules
pub mod Search
pub mod Sequence
pub mod Visits
mod Tests
use aegis_edr.Prelude.{
  ℕ, zero, suc, ◌+◌, ◌*◌, ◌%◌, ℤ, pos, negsuc, String, Option, none, some, List, [], ◌∷◌, ◌++◌,
  Bool, true, false, if◌then◌else◌, ◌==◌, string_eq, int_eq, not, ltb, leb, ◌&&◌, length, get_elem?,
  update, ◌^^◌, show_int, to_upper,
}
use aegis_edr.Dict.{Dict, empty, get, put, retain}
use aegis_edr.Channel.{Channel, try_send}
use aegis_edr.Telemetry.{Event}

pub record Edge : Type 0 where
  pub type : String
  pub target : ℕ
  pub timestamp : ℕ

-- The five entries of `Properties`, which each node has, are fields.
pub record Node : Type 0 where
  pub id : String
  pub type : String
  pub timestamp : ℕ
  pub binary_path : String
  pub command_line : String
  pub username : String
  pub pid : ℤ
  pub parent_id : ℤ
  pub edges : List Edge

pub record CorrelationRule : Type 0 where
  pub id : String
  pub name : String
  pub sequence : List String
  pub time_window : ℕ
  pub mitre_ids : List String
  pub description : String

-- The scores are numbers of hundredths: those of the code are multiples of a half, and 0.85.
pub record Alert : Type 0 where
  pub rule_id : String
  pub rule_name : String
  pub root_pid : ℤ
  pub risk_score : ℕ
  pub confidence_score : ℕ
  pub mitre_ids : List String
  pub timeline : List String
  pub occurred_at : ℕ

pub record Engine : Type 0 where
  pub heap : List Node
  -- The `nodes` of each shard.
  pub shards : List (Dict String ℕ)
  pub shard_count : ℕ
  pub rules : List CorrelationRule
  pub window : ℕ
  pub suppressed : Dict String Bool
  pub alerts_channel : Channel Alert

unfoldable pub empty_shards : ℕ → List (Dict String ℕ)
empty_shards zero = []
empty_shards (suc n) = empty ∷ empty_shards n

unfoldable pub new_engine : ℕ → ℕ → Channel Alert → Engine
unfolding empty_shards
new_engine shard_count window alerts_channel = record {
  heap = [];
  shards = empty_shards shard_count;
  shard_count = shard_count;
  rules = [];
  window = window;
  suppressed = empty;
  alerts_channel = alerts_channel;
}

unfoldable pub add_rule : Engine → CorrelationRule → Engine
add_rule e r = record e { rules = e.rules ++ r ∷ [] }

unfoldable pub suppress_alert : Engine → String → String → Engine
suppress_alert e rule_id target = record e {
  suppressed = put e.suppressed (rule_id ^^ ":" ^^ target) true;
}

unfoldable pub node_id : Event → String
node_id ev =
    if ev.type == "process"
    then ev.type ^^ ":" ^^ show_int ev.process_id
    else if ev.type == "network"
    then ev.type ^^ ":" ^^ ev.remote_ip ^^ ":" ^^ show_int ev.remote_port
    else ev.type ^^ ":" ^^ ev.file_path

unfoldable pub new_node : Event → Node
new_node ev = record {
  id = node_id ev;
  type = to_upper ev.type;
  timestamp = ev.timestamp;
  binary_path = ev.binary_path;
  command_line = ev.command_line;
  username = ev.username;
  pid = ev.process_id;
  parent_id = ev.parent_id;
  edges = [];
}

unfoldable pub add_edge : Edge → Node → Node
add_edge edge n = record n { edges = n.edges ++ edge ∷ [] }

-- !(now.Sub(n.Timestamp) > e.window)
unfoldable pub in_window : ℕ → ℕ → Option Node → Bool
in_window window now none = true
in_window window now (some n) = not (ltb (n.timestamp + window) now)

unfoldable pub is_positive : ℤ → Bool
is_positive (pos (suc n)) = true
is_positive _ = false

-- Dropping a shard's nodes that are out of the window, then entering one.
unfoldable pub enter : Engine → ℕ → String → ℕ → Dict String ℕ → Dict String ℕ
enter e now id a nodes = put (retain (λ b. in_window e.window now (get_elem? e.heap b)) nodes) id a

module _ (fnv32a : String → ℕ) where
  -- The place of the shard. With no shards the code panics here.
  unfoldable pub get_shard : Engine → String → ℕ
  get_shard e id = fnv32a id % e.shard_count

  -- The node that a shard has under an ID.
  unfoldable pub find_node : Engine → String → Option ℕ
  find_node e id = elim (get_elem? e.shards (get_shard e id)) [
    | none ↦ none
    | some nodes ↦ get nodes id
  ]

  unfoldable pub add_node : Engine → Event → ℕ → Engine
  add_node e ev now =
      let id = node_id ev in
      record e {
        heap = e.heap ++ new_node ev ∷ [];
        shards = update (get_shard e id) (enter e now id (length e.heap)) e.shards;
      }

  unfoldable pub link_parent : Engine → Event → ℕ → Engine
  link_parent e ev child = elim (find_node e ("process:" ^^ show_int ev.parent_id)) [
    | none ↦ e
    | some parent ↦
        let spawned : Edge = record {
          type = "SPAWNED";
          target = child;
          timestamp = ev.timestamp;
        } in
        let parent_of : Edge = record {
          type = "PARENT_OF";
          target = parent;
          timestamp = ev.timestamp;
        } in
        record e {
          heap = update child (add_edge parent_of) (update parent (add_edge spawned) e.heap);
        }
  ]

  -- Ingest up to the rules.
  unfoldable pub extend_graph : Engine → Event → ℕ → Engine
  extend_graph e ev now =
      let extended = add_node e ev now in
      if ev.type == "process" && is_positive ev.parent_id
      then link_parent extended ev (length e.heap)
      else extended
