-- ===== src/Router/Events.antt =====
-- internal/eventrouter/eventrouter.go: the events, the pool of their objects, and the statements that
-- store them.
use aegis_edr.Prelude.{
  ℕ, ◌*◌, ◌/◌, ℤ, pos, String, Option, none, some, List, [], ◌∷◌, ◌++◌, Bool, not, ◌&&◌, ◌||◌,
  if◌then◌else◌, ◌==◌, string_eq, contains, to_lower, ◌^^◌,
}
use aegis_edr.Storage.Sql.{Stmt, insert_process, insert_file, insert_network, insert_alert}

abbrev pub type_process : String
type_process = "process"

abbrev pub type_file : String
type_file = "file"

abbrev pub type_network : String
type_network = "network"

pub record Event : Type 0 where
  pub id : ℕ
  pub type : String
  -- Nanoseconds since the zero time.
  pub timestamp : ℕ
  pub process_id : ℤ
  pub parent_id : ℤ
  pub binary_path : String
  pub sha256 : String
  pub command_line : String
  pub username : String
  pub file_path : String
  pub file_action : String
  pub protocol : String
  pub local_ip : String
  pub local_port : ℤ
  pub remote_ip : String
  pub remote_port : ℤ

-- `&Event{}`
abbrev pub blank : Event
blank = record {
  id = 0;
  type = "";
  timestamp = 0;
  process_id = pos 0;
  parent_id = pos 0;
  binary_path = "";
  sha256 = "";
  command_line = "";
  username = "";
  file_path = "";
  file_action = "";
  protocol = "";
  local_ip = "";
  local_port = pos 0;
  remote_ip = "";
  remote_port = pos 0;
}

-- sync.Pool: the objects that were put back and not yet taken out.
abbrev pub EventPool : Type 0
EventPool = List Event

unfoldable pub get_event : EventPool → Event × EventPool
get_event [] = (blank, [])
get_event (e ∷ pool) = (e, pool)

-- The object is cleared field by field before it goes back.
reset : Event → Event
reset e = record e {
  id = 0;
  type = "";
  timestamp = 0;
  process_id = pos 0;
  parent_id = pos 0;
  binary_path = "";
  sha256 = "";
  command_line = "";
  username = "";
  file_path = "";
  file_action = "";
  protocol = "";
  local_ip = "";
  local_port = pos 0;
  remote_ip = "";
  remote_port = pos 0;
}

unfoldable pub put_event : Event → EventPool → EventPool
unfolding reset
put_event e pool = reset e ∷ pool

unfoldable pub put_all : List Event → EventPool → EventPool
put_all [] pool = pool
put_all (e ∷ es) pool = put_all es (put_event e pool)

-- A file event on one of the agent's own files that does more than read it.
unfoldable pub is_tampering : Event → Bool
is_tampering e =
    e.type == type_file
    && not (e.file_action == "read")
    && not (e.file_action == "open")
    && (contains path "telemetry.db"
        || contains path "aegis.yaml"
        || contains path "aegisd"
        || contains path "aegis.sock")
  where
    path : String
    path = to_lower e.file_path

unfoldable pub self_defense_alert : Event → Stmt
self_defense_alert e =
    insert_alert "AGENT_SELF_DEFENSE" "anti-tampering" 100
      ("Unauthorized write/modify attempt detected on protected agent path: " ^^ e.file_path)
      e.process_id

-- The switch on the type: an event of another type is not stored.
unfoldable pub telemetry_stmt : Event → Option Stmt
telemetry_stmt e =
    if e.type == type_process
    then some (insert_process e.parent_id e.binary_path e.sha256 e.command_line e.username)
    else if e.type == type_file
    then some (insert_file e.process_id e.file_path e.file_action)
    else if e.type == type_network
    then some
        (insert_network e.process_id e.protocol e.local_ip e.local_port e.remote_ip e.remote_port)
    else none

-- The statements that an event causes, in order.
unfoldable pub event_stmts : Event → List Stmt
event_stmts e =
    (if is_tampering e then self_defense_alert e ∷ [] else []) ++ optional (telemetry_stmt e)
  where
    optional : Option Stmt → List Stmt
    optional none = []
    optional (some q) = q ∷ []

-- The queue's limit from which file reads are dropped: int(float64(capacity) * 0.8). The product
-- in floating point has this integer part for each capacity below 2 ^ 50.
abbrev pub watermark : ℕ → ℕ
watermark capacity = capacity * 8 / 10

unfoldable pub is_file_read : Event → Bool
is_file_read e = e.type == type_file && e.file_action == "read"
