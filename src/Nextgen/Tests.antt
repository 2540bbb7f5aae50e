-- ===== src/Nextgen/Tests.antt =====
-- A graph and its rules at concrete inputs.
use aegis_edr.Prelude.{
  ℕ, ◌+◌, ◌≡◌, ◌≤◌, ◌<◌, ◌⊎◌, refl, pos, String, none, some, List, [], ◌∷◌, true, arith, length,
  get_elem?, show_nat, to_upper, int_eq, string_eq, ◌^^◌, show_int,
}
use aegis_edr.Channel.{make, try_send}
use aegis_edr.Dict.{get, put, retain}
use aegis_edr.Telemetry.{Event}
use aegis_edr.Nextgen.{
  Engine, new_engine, add_rule, extend_graph, find_node, add_node, get_shard, enter, link_parent,
  add_edge, empty_shards, new_node, node_id, in_window, is_positive,
}
use aegis_edr.Nextgen.Rules.{
  check_sequence, ingest, evaluate_rules, trigger_alert, try_edges, in_time, is_suppressed,
  root_pid, root_node,
}
use aegis_edr.Nextgen.Search.{Reply, reconstruct_timeline}
use aegis_edr.Nextgen.Sequence.{IsChain, check_sequence-IsChain}
use aegis_edr.Nextgen.Bounce.{repeat}
use aegis_edr.Nextgen.Visits.{reconstruct_total}

abbrev started : ℕ → ℕ → ℕ → Event
started pid parent at = record {
  id = 1;
  type = "process";
  timestamp = at;
  process_id = pos pid;
  parent_id = pos parent;
  binary_path = "/bin/sh";
  sha256 = "ab";
  command_line = "sh";
  username = "u";
  file_path = "";
  file_action = "";
  protocol = "";
  local_ip = "";
  local_port = pos 0;
  remote_ip = "";
  remote_port = pos 0;
}

-- All nodes in one shard, and times left out.
abbrev one_hash : String → ℕ
one_hash id = 0

abbrev no_time : ℕ → String
no_time t = "t"

abbrev one_process : Engine
one_process = extend_graph one_hash (new_engine 1 100 (make 10)) (started 7 0 5) 5

abbrev two_processes : Engine
two_processes = extend_graph one_hash one_process (started 8 7 6) 6

two_nodes : length two_processes.heap < 3
unfolding extend_graph link_parent find_node add_node get_shard enter new_engine empty_shards
    new_node node_id in_window is_positive get put retain show_int show_nat
two_nodes = omega arith

reconstruct_total_example :
    (r : Reply) × (reconstruct_timeline no_time one_hash 3 two_processes (pos 7) ≡ some r)
reconstruct_total_example = reconstruct_total no_time one_hash two_processes (pos 7) 3 two_nodes

check_sequence-IsChain_example :
    ((c : List ℕ) × (check_sequence two_processes.heap 10 ("PROCESS" ∷ "PROCESS" ∷ []) 1 []
        ≡ some c)
      × IsChain two_processes.heap 10 ("PROCESS" ∷ "PROCESS" ∷ []) 1 c)
    ⊎ ((check_sequence two_processes.heap 10 ("PROCESS" ∷ "PROCESS" ∷ []) 1 [] ≡ none)
        × ((c : List ℕ) → ¬ IsChain two_processes.heap 10 ("PROCESS" ∷ "PROCESS" ∷ []) 1 c))
check_sequence-IsChain_example =
    check_sequence-IsChain two_processes.heap 10 "PROCESS" ("PROCESS" ∷ []) 1

parent_found :
    find_node one_hash
      (add_node one_hash one_process (started 8 7 6) 6)
      ("process:" ^^ show_int (pos 7))
    ≡ some 0
unfolding find_node add_node get_shard enter extend_graph new_engine empty_shards new_node node_id
    in_window is_positive get put retain show_int show_nat
parent_found = refl

parent_here : get_elem? one_process.heap 0 ≡ some (new_node (started 7 0 5))
unfolding extend_graph add_node new_engine is_positive
parent_here = refl

parent_is_process : (new_node (started 7 0 5)).type ≡ "PROCESS"
unfolding new_node to_upper
parent_is_process = refl

same_time :
    ((new_node (started 7 0 5)).timestamp ≤ 16) × (6 ≤ (new_node (started 7 0 5)).timestamp + 10)
unfolding new_node
same_time = (omega arith, omega arith)

has_parent : is_positive (pos 7) ≡ true
unfolding is_positive
has_parent = refl

-- One alert, about the two processes, for a rule that asks for three.
three_of_two :
    length
      (ingest no_time one_hash
        (add_rule one_process (record {
          id = "R";
          name = "three";
          sequence = repeat 3 "PROCESS";
          time_window = 10;
          mitre_ids = [];
          description = "";
        }))
        (started 8 7 6)
        6).alerts_channel.buffer
    ≡ 1
unfolding ingest evaluate_rules trigger_alert add_rule check_sequence try_edges in_time find_node
    add_node get_shard enter extend_graph link_parent add_edge new_engine empty_shards new_node
    node_id in_window is_positive get put retain show_int show_nat to_upper is_suppressed root_pid
    root_node try_send
three_of_two = refl
