-- ===== src/Client/Status.antt =====
-- cmd/aegis/main.go: the updates of the live dashboard and of the health check. The texts on the screen
-- are not modelled. How SQLite orders rows of one time, and the text of a time, are parameters.
use aegis_edr.Prelude.{
  ℕ, String, Bool, true, false, ◌||◌, if◌then◌else◌, Option, none, some, List, map, take, length,
  ◌==◌, string_eq,
}
use aegis_edr.Server.{Reply, error, answer, ServerError, StatusResponse}
use aegis_edr.Storage.Tables.{Tables, Table, Engine, AlertRow}

pub data KeyType : Type 0 where
  ctrl_c esc other_key : KeyType

pub data Msg : Type 0 where
  key_msg : String → KeyType → Msg
  tick_msg other_msg : Msg

-- tea.Quit, the next tick, or nothing.
pub data Cmd : Type 0 where
  quit tick no_cmd : Cmd

pub record AlertLog : Type 0 where
  pub rule_name : String
  pub category : String
  pub triggered_at : String
  pub description : String

pub record StatusModel (Failure : Type 0) : Type 0 where
  pub status : Option StatusResponse
  pub err : Option (ServerError Failure)
  pub proc_count : ℕ
  pub file_count : ℕ
  pub net_count : ℕ
  pub recent_alerts : List AlertLog

is_ending : KeyType → Bool
is_ending ctrl_c = true
is_ending esc = true
is_ending other_key = false

module _ (engine : Engine) (newest_first : List AlertRow → List AlertRow) (time : ℕ → String) where
  open engine use {fails}

  -- SELECT COUNT(*); an error leaves the number as it was.
  counted : {R : Type 0} → Tables → Table R → ℕ → ℕ
  counted t table before = if fails t then before else length table.rows

  alert_log_of : AlertRow → AlertLog
  alert_log_of a = record {
    rule_name = a.rule_name;
    category = a.category;
    triggered_at = time a.triggered_at;
    description = a.description;
  }

  -- What follows a reply of the daemon; the file `telemetry.db` opens.
  refresh :
      {Failure : Type 0}
      → StatusModel Failure
      → Reply Failure StatusResponse
      → Tables
      → StatusModel Failure
  unfolding counted alert_log_of
  refresh m (error e) t = record m { err = some e }
  refresh m (answer res) t = record m {
    status = some res;
    err = none;
    proc_count = counted t t.processes m.proc_count;
    file_count = counted t t.files m.file_count;
    net_count = counted t t.connections m.net_count;
    recent_alerts =
        if fails t then m.recent_alerts else map alert_log_of (take 3 (newest_first t.alerts.rows));
  }

  pub update_status :
      {Failure : Type 0}
      → StatusModel Failure
      → Msg
      → Reply Failure StatusResponse
      → Tables
      → StatusModel Failure × Cmd
  unfolding refresh is_ending
  update_status m (key_msg text key) reply t =
      if text == "q" || is_ending key then (m, quit) else (m, no_cmd)
  update_status m tick_msg reply t = (refresh m reply t, tick)
  update_status m other_msg reply t = (m, no_cmd)

-- The health check ends at the first message.
pub update_health : {Model : Type 0} → Model → Msg → Model × Cmd
update_health m msg = (m, quit)
