-- ===== src/Forensics.antt =====
-- internal/forensics/timeline.go: a timeline from the rows of the database.
pub mod Collector
use aegis_edr.Prelude.{ℕ, String, Option, none, some, List, [], ◌++◌, map, ◌^^◌, show_int}
use aegis_edr.Sort.{sort_by}
use aegis_edr.Storage.{DbProcess, DbFileModification, DbNetworkConnection}

pub record TimelineEvent : Type 0 where
  pub timestamp : ℕ
  pub category : String
  pub description : String

-- The queries of the store with a start and an end; `none` is an error.
pub record Queries (Db : Type 0) : Type 0 where
  pub query_processes : Db → ℕ → ℕ → Option (List DbProcess)
  pub query_file_modifications : Db → ℕ → ℕ → Option (List DbFileModification)
  pub query_network_connections : Db → ℕ → ℕ → Option (List DbNetworkConnection)

unfoldable pub process_event : DbProcess → TimelineEvent
process_event p = record {
  timestamp = p.launched_at;
  category = "PROCESS";
  description =
      "Process executed: " ^^ p.binary_path ^^ " (args: " ^^ p.command_line ^^ ") by user "
      ^^ p.username;
}

unfoldable pub file_event : DbFileModification → TimelineEvent
file_event f = record {
  timestamp = f.occurred_at;
  category = "FILE";
  description = "File " ^^ f.action ^^ ": " ^^ f.file_path;
}

unfoldable pub network_event : DbNetworkConnection → TimelineEvent
network_event n = record {
  timestamp = n.occurred_at;
  category = "NETWORK";
  description =
      "Network connection: "
      ^^ n.protocol
      ^^ " "
      ^^ n.local_ip
      ^^ ":"
      ^^ show_int n.local_port
      ^^ " -> "
      ^^ n.remote_ip
      ^^ ":"
      ^^ show_int n.remote_port;
}

-- A query that fails contributes nothing.
unfoldable pub rows_of {ℓ} : {A : Type ℓ} → Option (List A) → List A
rows_of none = []
rows_of (some rows) = rows

module _ {Db : Type 0} (queries : Queries Db) where
  open queries use {query_processes, query_file_modifications, query_network_connections}

  -- BuildTimeline, whose error is always nil.
  unfoldable pub build_timeline : Db → ℕ → ℕ → List TimelineEvent
  build_timeline db start end =
      sort_by (λ ev. ev.timestamp)
        (map process_event (rows_of (query_processes db start end))
          ++ map file_event (rows_of (query_file_modifications db start end))
          ++ map network_event (rows_of (query_network_connections db start end)))
