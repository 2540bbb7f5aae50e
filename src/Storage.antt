-- ===== src/Storage.antt =====
-- internal/storage/storage.go: the statements that the agent sends to its database.
pub mod Sql
pub mod Tables
pub mod Open
use aegis_edr.Prelude.{ℕ, ℤ, String, Option}
use Sql.{Stmt, Database}

-- The rows that the queries return; times are nanoseconds since the zero time.
pub record DbProcess : Type 0 where
  pub binary_path : String
  pub command_line : String
  pub username : String
  pub launched_at : ℕ

pub record DbFileModification : Type 0 where
  pub file_path : String
  pub action : String
  pub occurred_at : ℕ

pub record DbNetworkConnection : Type 0 where
  pub protocol : String
  pub local_ip : String
  pub local_port : ℤ
  pub remote_ip : String
  pub remote_port : ℤ
  pub occurred_at : ℕ

pub record DbIndicator : Type 0 where
  pub pattern_text : String
  pub pattern_type : String
  pub threat_label : String

module _ (sql : Database) where
  open sql use {Db, exec}

  -- Each insertion is a transaction of its own; `none` is an error.
  unfoldable pub insert_process : Db → ℤ → String → String → String → String → Option Db
  insert_process db parent_id binary_path sha256 command_line username =
      exec db (Stmt.insert_process parent_id binary_path sha256 command_line username)

  unfoldable pub insert_file_modification : Db → ℤ → String → String → Option Db
  insert_file_modification db process_id file_path action =
      exec db (Stmt.insert_file process_id file_path action)

  unfoldable pub insert_network_connection : Db → ℤ → String → String → ℤ → String → ℤ → Option Db
  insert_network_connection db process_id protocol local_ip local_port remote_ip remote_port =
      exec db (Stmt.insert_network process_id protocol local_ip local_port remote_ip remote_port)

  -- The risk score in hundredths.
  unfoldable pub insert_alert_log : Db → String → String → ℕ → String → ℤ → Option Db
  insert_alert_log db rule_name category risk_score description process_id =
      exec db (Stmt.insert_alert rule_name category risk_score description process_id)

  unfoldable pub insert_indicator : Db → String → String → String → Option Db
  insert_indicator db pattern_ pattern_type threat_label =
      exec db (Stmt.insert_indicator pattern_ pattern_type threat_label)
