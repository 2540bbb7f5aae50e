-- ===== src/Client/Queries.antt =====
-- cmd/aegis/main.go: investigate, trace and hunt, which read the tables of Storage.Tables. How SQLite
-- reads a text where it compares it with a key, and LIKE, are parameters, as is the printing of a risk
-- score, which is in hundredths.
use aegis_edr.Prelude.{
  ℕ, zero, suc, ℤ, pos, String, Bool, true, false, not, if◌then◌else◌, ltb, leb, Option, none, some,
  List, [], ◌∷◌, ◌++◌, ◌==◌, string_eq, int_eq, ◌^^◌, show_int,
}
use aegis_edr.Storage.Tables.{Tables, Engine, ProcessRow, select}

pub record Reader : Type 0 where
  pub engine : Engine
  -- The number that a text is compared as, with the affinity of an INTEGER column.
  pub affinity : String → Option ℤ
  pub like : String → String → Bool
  -- %.2f
  pub two_digits : ℕ → String

-- --type, --query, --risk, --mitre and --ioc
pub record Hunt : Type 0 where
  pub type : String
  pub query : String
  pub risk : ℕ
  pub mitre : String
  pub ioc : String

-- The rows of a query under their heading; where the query fails, nothing.
unfoldable pub listing : String → Option (List String) → List String → List String
listing heading none ending = []
listing heading (some lines) ending = heading ∷ lines ++ ending

-- What is printed of the answers to the four queries, and the status with which it exits.
unfoldable pub report :
    String
    → Option ProcessRow
    → Option (List String)
    → Option (List String)
    → Option (List String)
    → List String × ℕ
unfolding listing
report target none files connections alerts =
    (("Process PID " ^^ target ^^ " not found in telemetry history") ∷ [], 1)
report target (some p) files connections alerts = (
  ("PROCESS INVESTIGATION FOR PID " ^^ target)
        ∷ "======================================="
        ∷ ("Binary Path: " ^^ p.binary_path)
        ∷ ("Command    : " ^^ p.command_line)
        ∷ ("User       : " ^^ p.username)
        ∷ ""
        ∷ listing "FILE INTEGRITY LOGS:" files ("" ∷ [])
      ++ listing "NETWORK CONNECTIONS:" connections ("" ∷ [])
      ++ listing "ASSOCIATED ALERTS:" alerts [],
  0,
)

-- QueryRow of what a query gives.
unfoldable pub first_row : Option (List ProcessRow) → Option ProcessRow
first_row (some (p ∷ _)) = some p
first_row _ = none

unfoldable pub trace_line : String → String → ProcessRow → String
trace_line indent target p =
    indent ^^ "[PID " ^^ target ^^ "] " ^^ p.binary_path ^^ " (args: " ^^ p.command_line ^^ ")"

-- parentId <= 0 || targetPid == fmt.Sprintf("%d", parentId)
unfoldable pub is_root : String → ℤ → Bool
is_root target (pos (suc n)) = target == show_int (pos (suc n))
is_root target _ = true

-- The pattern of LIKE.
unfoldable pub anywhere : String → String
anywhere text = "%" ^^ text ^^ "%"

module _ (reader : Reader) where
  open reader use {engine, affinity, like, two_digits}

  -- process_id = ?
  unfoldable pub is_key : String → ℤ → Bool
  is_key target id = elim (affinity target) [ none ↦ false | some key ↦ id == key ]

  unfoldable pub find_process : Tables → String → Option ProcessRow
  unfolding is_key first_row
  find_process t target =
      first_row (select engine t t.processes (λ p. is_key target (pos p.process_id)) (λ p. p))

  unfoldable pub file_lines : Tables → String → Option (List String)
  unfolding is_key
  file_lines t target =
      select engine t t.files (λ f. is_key target f.process_id)
        (λ f. "  [" ^^ f.action ^^ "] " ^^ f.file_path)

  unfoldable pub network_lines : Tables → String → Option (List String)
  unfolding is_key
  network_lines t target =
      select engine t t.connections (λ n. is_key target n.process_id)
        (λ n. "  [" ^^ n.protocol ^^ "] " ^^ n.remote_ip ^^ ":" ^^ show_int n.remote_port)

  unfoldable pub alert_lines : Tables → String → Option (List String)
  unfolding is_key
  alert_lines t target =
      select engine t t.alerts (λ a. is_key target a.process_id)
        (λ a.
          "  [" ^^ a.rule_name ^^ "] Score: " ^^ two_digits a.risk_score ^^ " - " ^^ a.description)

  unfoldable pub investigate : Tables → String → List String × ℕ
  unfolding find_process file_lines network_lines alert_lines report
  investigate t target =
      report target (find_process t target) (file_lines t target) (network_lines t target)
        (alert_lines t target)

  -- The loop of trace on fuel: none is a lineage that is longer.
  unfoldable pub trace : ℕ → Tables → String → String → Option (List String)
  unfolding find_process trace_line is_root
  trace zero t indent target = none
  trace (suc fuel) t indent target = elim (find_process t target) [
    | none ↦ some []
    | some p ↦
        let rest = trace fuel t (indent ^^ "  ↳ ") (show_int p.parent_id) in
        if is_root target p.parent_id
        then some (trace_line indent target p ∷ [])
        else elim rest [ none ↦ none | some lines ↦ some (trace_line indent target p ∷ lines) ]
  ]

  -- hunt prints one list, by the first option that is set.
  unfoldable pub hunt : Hunt → Tables → List String
  unfolding listing anywhere
  hunt h t =
      if not (h.ioc == "")
      then listing "IOC MATCHING PROCESSES:"
          (select engine t t.processes (λ p. p.sha256 == h.ioc)
            (λ p.
              "Process: " ^^ p.binary_path ^^ " (args: " ^^ p.command_line ^^ ") run by "
              ^^ p.username))
          []
      else if ltb 0 h.risk
      then listing "ALERTS BY RISK THRESHOLD:"
          (select engine t t.alerts (λ a. leb h.risk a.risk_score)
            (λ a.
              "["
              ^^ a.rule_name
              ^^ "] Score: "
              ^^ two_digits a.risk_score
              ^^ " - "
              ^^ a.description))
          []
      else if not (h.mitre == "")
      then listing "ALERTS BY MITRE / CATEGORY TAG:"
          (select engine t t.alerts (λ a. like a.category (anywhere h.mitre))
            (λ a. "[" ^^ a.rule_name ^^ "] Tag: " ^^ a.category ^^ " - " ^^ a.description))
          []
      else if h.type == "file"
      then listing "FILE HUNT RESULTS:"
          (select engine t t.files (λ f. like f.file_path (anywhere h.query))
            (λ f. "[" ^^ f.action ^^ "] " ^^ f.file_path))
          []
      else if h.type == "network"
      then listing "NETWORK HUNT RESULTS:"
          (select engine t t.connections (λ n. like n.remote_ip (anywhere h.query))
            (λ n. "[" ^^ n.protocol ^^ "] " ^^ n.remote_ip ^^ ":" ^^ show_int n.remote_port))
          []
      else listing "PROCESS HUNT RESULTS:"
          (select engine t t.processes (λ p. like p.binary_path (anywhere h.query))
            (λ p. "Bin: " ^^ p.binary_path ^^ " | Args: " ^^ p.command_line))
          []
