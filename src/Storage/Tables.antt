-- ===== src/Storage/Tables.antt =====
-- The tables of internal/storage/storage.go as SQLite keeps them: the columns and constraints of
-- `migrate`, the statements that insert, the queries and the pruning. Of the engine, the order of
-- times and its failures are parameters.
pub mod Keys
pub mod Sound
pub mod History
pub mod Prune
pub mod Evidence
mod Tests
use mathlib.Core.Option.{map as option_map}
use aegis_edr.Prelude.{
  ℕ, ◌+◌, ◌^◌, ◌-◌, ℤ, pos, String, Bool, true, false, not, ◌&&◌, ◌||◌, if◌then◌else◌, ltb, Option,
  none, some, List, [], ◌∷◌, ◌++◌, map, keep, any, ◌==◌, int_eq,
}
use aegis_edr.Storage.{DbProcess, DbFileModification, DbNetworkConnection, DbIndicator}
use aegis_edr.Storage.Sql.{Stmt, Database}

pub record ProcessRow : Type 0 where
  pub process_id : ℕ
  pub parent_id : ℤ
  pub binary_path : String
  pub sha256 : String
  pub command_line : String
  pub username : String
  pub launched_at : ℕ

pub record FileRow : Type 0 where
  pub event_id : ℕ
  pub process_id : ℤ
  pub file_path : String
  pub action : String
  pub occurred_at : ℕ

pub record ConnectionRow : Type 0 where
  pub connection_id : ℕ
  pub process_id : ℤ
  pub protocol : String
  pub local_ip : String
  pub local_port : ℤ
  pub remote_ip : String
  pub remote_port : ℤ
  pub occurred_at : ℕ

-- The risk score in hundredths; `trigger_value` is never written.
pub record AlertRow : Type 0 where
  pub alert_id : ℕ
  pub rule_name : String
  pub category : String
  pub risk_score : ℕ
  pub description : String
  pub process_id : ℤ
  pub triggered_at : ℕ

pub record IndicatorRow : Type 0 where
  pub indicator_id : ℕ
  pub pattern_text : String
  pub pattern_type : String
  pub threat_label : String
  pub created_at : ℕ

-- A table with INTEGER PRIMARY KEY AUTOINCREMENT: its rows in the order of their keys, and the last
-- key that was given, which is never given again.
pub record Table (R : Type 0) : Type 0 where
  pub rows : List R
  pub last_id : ℕ

abbrev pub no_rows : {R : Type 0} → Table R
no_rows = record { rows = []; last_id = 0 }

-- The largest key; an insertion after it fails.
abbrev pub max_id : ℕ
max_id = 2 ^ 63 - 1

-- The new row gets the next key.
unfoldable pub add_row : {R : Type 0} → Table R → (ℕ → R) → Option (Table R)
add_row t new_row =
    let id = t.last_id + 1 in
    if ltb t.last_id max_id
    then some (record { rows = t.rows ++ new_row id ∷ []; last_id = id })
    else none

abbrev pub delete_rows : {R : Type 0} → (R → Bool) → Table R → Table R
delete_rows gone t = record t { rows = keep (λ r. not (gone r)) t.rows }

-- The database, and the time that CURRENT_TIMESTAMP gives.
pub record Tables : Type 0 where
  pub now : ℕ
  pub processes : Table ProcessRow
  pub files : Table FileRow
  pub connections : Table ConnectionRow
  pub alerts : Table AlertRow
  pub indicators : Table IndicatorRow

-- What `migrate` makes of a new file.
abbrev pub created : ℕ → Tables
created now = record {
  now = now;
  processes = no_rows;
  files = no_rows;
  connections = no_rows;
  alerts = no_rows;
  indicators = no_rows;
}

-- Is there a row of `processes` with this key?
abbrev pub has_process : Tables → ℤ → Bool
has_process t id = any (λ p. pos p.process_id == id) t.processes.rows

-- FOREIGN KEY(process_id) REFERENCES processes(process_id), which `foreign_keys(ON)` enforces.
abbrev checked : Tables → ℤ → Option Tables → Option Tables
checked t id changed = if has_process t id then changed else none

-- The rows of the INSERT statements: the values, the key and CURRENT_TIMESTAMP.
abbrev pub new_process : Tables → ℤ → String → String → String → String → ℕ → ProcessRow
new_process t parent_id binary_path sha256 command_line username id = record {
  process_id = id;
  parent_id = parent_id;
  binary_path = binary_path;
  sha256 = sha256;
  command_line = command_line;
  username = username;
  launched_at = t.now;
}

abbrev pub new_file : Tables → ℤ → String → String → ℕ → FileRow
new_file t process_id file_path action id = record {
  event_id = id;
  process_id = process_id;
  file_path = file_path;
  action = action;
  occurred_at = t.now;
}

abbrev pub new_connection : Tables → ℤ → String → String → ℤ → String → ℤ → ℕ → ConnectionRow
new_connection t process_id protocol local_ip local_port remote_ip remote_port id = record {
  connection_id = id;
  process_id = process_id;
  protocol = protocol;
  local_ip = local_ip;
  local_port = local_port;
  remote_ip = remote_ip;
  remote_port = remote_port;
  occurred_at = t.now;
}

abbrev pub new_alert : Tables → String → String → ℕ → String → ℤ → ℕ → AlertRow
new_alert t rule_name category risk_score description process_id id = record {
  alert_id = id;
  rule_name = rule_name;
  category = category;
  risk_score = risk_score;
  description = description;
  process_id = process_id;
  triggered_at = t.now;
}

abbrev pub new_indicator : Tables → String → String → String → ℕ → IndicatorRow
new_indicator t pattern_text pattern_type threat_label id = record {
  indicator_id = id;
  pattern_text = pattern_text;
  pattern_type = pattern_type;
  threat_label = threat_label;
  created_at = t.now;
}

-- What an INSERT makes of the tables; `none` is a constraint that fails.
unfoldable pub insert : Tables → Stmt → Option Tables
unfolding add_row
insert t (Stmt.insert_process parent_id binary_path sha256 command_line username) =
    option_map (λ new. record t { processes = new })
      (add_row t.processes (new_process t parent_id binary_path sha256 command_line username))
insert t (Stmt.insert_file process_id file_path action) = checked t process_id (
    option_map (λ new. record t { files = new })
      (add_row t.files (new_file t process_id file_path action)))
insert t (Stmt.insert_network process_id protocol local_ip local_port remote_ip remote_port) =
    checked t process_id (
      option_map (λ new. record t { connections = new })
        (add_row t.connections
          (new_connection t process_id protocol local_ip local_port remote_ip remote_port)))
insert t (Stmt.insert_alert rule_name category risk_score description process_id) =
    checked t process_id (
      option_map (λ new. record t { alerts = new })
        (add_row t.alerts (new_alert t rule_name category risk_score description process_id)))
insert t (Stmt.insert_indicator pattern_text pattern_type threat_label) =
    option_map (λ new. record t { indicators = new })
      (add_row t.indicators (new_indicator t pattern_text pattern_type threat_label))

-- process_id IN (SELECT DISTINCT process_id FROM alert_logs WHERE process_id IS NOT NULL)
abbrev pub is_alerted : Tables → ℤ → Bool
is_alerted t id = any (λ a. a.process_id == id) t.alerts.rows

-- Does a row of another table refer to this process?
abbrev pub is_referenced : Tables → ℤ → Bool
is_referenced t id =
    any (λ f. f.process_id == id) t.files.rows
    || any (λ n. n.process_id == id) t.connections.rows
    || is_alerted t id

-- What the program relies on in SQLite and its driver.
pub record Engine : Type 0 where
  -- How a stored time compares with a time that the driver binds.
  pub earlier : ℕ → ℕ → Bool
  pub later : ℕ → ℕ → Bool
  -- A statement on this database fails for a reason outside its tables: a full disk, a locked file,
  -- a context that is done.
  pub fails : Tables → Bool

-- `if err != nil { return err }`: what was executed before the error stays.
abbrev pub after : Tables → Option Tables → (Tables → Tables × Bool) → Tables × Bool
after t none next = (t, false)
after t (some t') next = next t'

module _ (engine : Engine) where
  open engine use {earlier, later, fails}

  unfoldable pub execute : Tables → Stmt → Option Tables
  execute t q = if fails t then none else insert t q

  -- SQLite behind the statements of the program.
  abbrev pub sqlite : Database
  sqlite = record {
    Db = Tables;
    begins = λ t. not (fails t);
    exec = execute;
    commit = λ _ t. if fails t then none else some t;
  }

  between : ℕ → ℕ → ℕ → Bool
  between start end at = not (earlier at start) && not (later at end)

  -- A query reads its rows where the engine does not fail.
  unfoldable pub select {ℓ} :
      {R : Type 0} {A : Type ℓ} → Tables → Table R → (R → Bool) → (R → A) → Option (List A)
  select t table test column = if fails t then none else some (map column (keep test table.rows))

  unfoldable pub query_processes : Tables → ℕ → ℕ → Option (List DbProcess)
  unfolding between
  query_processes t start end =
      select t t.processes (λ p. between start end p.launched_at)
        (λ p. record {
          binary_path = p.binary_path;
          command_line = p.command_line;
          username = p.username;
          launched_at = p.launched_at;
        })

  unfoldable pub query_file_modifications : Tables → ℕ → ℕ → Option (List DbFileModification)
  unfolding between
  query_file_modifications t start end =
      select t t.files (λ f. between start end f.occurred_at)
        (λ f. record { file_path = f.file_path; action = f.action; occurred_at = f.occurred_at })

  unfoldable pub query_network_connections : Tables → ℕ → ℕ → Option (List DbNetworkConnection)
  unfolding between
  query_network_connections t start end =
      select t t.connections (λ n. between start end n.occurred_at)
        (λ n. record {
          protocol = n.protocol;
          local_ip = n.local_ip;
          local_port = n.local_port;
          remote_ip = n.remote_ip;
          remote_port = n.remote_port;
          occurred_at = n.occurred_at;
        })

  unfoldable pub query_indicators : Tables → Option (List DbIndicator)
  query_indicators t =
      select t t.indicators (λ _. true)
        (λ i. record {
          pattern_text = i.pattern_text;
          pattern_type = i.pattern_type;
          threat_label = i.threat_label;
        })

  -- The condition of each DELETE, for a row's time and process.
  abbrev pub is_stale : Tables → ℕ → ℕ → ℤ → Bool
  is_stale t cutoff at id = earlier at cutoff && not (is_alerted t id)

  abbrev pub stale_process : Tables → ℕ → ProcessRow → Bool
  stale_process t cutoff p = is_stale t cutoff p.launched_at (pos p.process_id)

  unfoldable pub delete_files : Tables → ℕ → Option Tables
  delete_files t cutoff =
      if fails t
      then none
      else some (record t {
        files = delete_rows (λ f. is_stale t cutoff f.occurred_at f.process_id) t.files;
      })

  unfoldable pub delete_connections : Tables → ℕ → Option Tables
  delete_connections t cutoff =
      if fails t
      then none
      else some (record t {
        connections = delete_rows (λ n. is_stale t cutoff n.occurred_at n.process_id) t.connections;
      })

  -- A row that is still referred to makes the whole statement fail.
  unfoldable pub delete_processes : Tables → ℕ → Option Tables
  delete_processes t cutoff =
      if fails t
        || any (λ p. stale_process t cutoff p && is_referenced t (pos p.process_id))
            t.processes.rows
      then none
      else some (record t { processes = delete_rows (stale_process t cutoff) t.processes })

  -- PruneOldTelemetry, with false for an error: the statements are no transaction, so those
  -- before the one that fails stay executed.
  unfoldable pub prune_old_telemetry : Tables → ℕ → Tables × Bool
  unfolding delete_files delete_connections delete_processes
  prune_old_telemetry t cutoff = after t (delete_files t cutoff) (λ t₁.
      after t₁ (delete_connections t₁ cutoff)
        (λ t₂. after t₂ (delete_processes t₂ cutoff) (λ t₃. (t₃, true))))
