-- ===== src/Storage/Sql.antt =====
-- The INSERT statements of internal/storage/storage.go and internal/eventrouter/eventrouter.go, and
-- `database/sql` over SQLite as a parameter: the driver and the engine are not part of the program.
use aegis_edr.Prelude.{ℕ, ℤ, String, Option, Bool}

pub data Stmt : Type 0 where
  -- parent_id, binary_path, sha256, command_line, username
  insert_process : ℤ → String → String → String → String → Stmt
  -- process_id, file_path, action
  insert_file : ℤ → String → String → Stmt
  -- process_id, protocol, local_ip, local_port, remote_ip, remote_port
  insert_network : ℤ → String → String → ℤ → String → ℤ → Stmt
  -- rule_name, category, risk_score in hundredths, description, process_id
  insert_alert : String → String → ℕ → String → ℤ → Stmt
  -- pattern, pattern_type, threat_label
  insert_indicator : String → String → String → Stmt

-- What the program calls. A statement that fails (`none`) is rolled back by itself, and so is a
-- transaction whose commit fails, so `none` carries no new state.
pub record Database : Type 1 where
  pub Db : Type 0
  -- db.Begin() gives a transaction.
  pub begins : Db → Bool
  -- ExecContext, in a transaction or outside one.
  pub exec : Db → Stmt → Option Db
  -- tx.Commit(): the state before the transaction, and the state that it made.
  pub commit : Db → Db → Option Db
