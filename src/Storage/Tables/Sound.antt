-- ===== src/Storage/Tables/Sound.antt =====
-- internal/storage/storage.go: what every statement and every pruning keeps of the tables.
use mathlib.Core.Option.{map as option_map}
use aegis_edr.Prelude.{
  ℕ, ◌+◌, ℤ, pos, Bool, true, false, if◌then◌else◌, Option, none, some, List, [], ◌∷◌, ◌≡◌, refl,
  arith, any, ◌==◌, int_eq, int_beq_iff, All, All-map, All-append, All-and, All-any,
  any-append_left,
}
use aegis_edr.Storage.Sql.{
  Stmt, insert_process, insert_file, insert_network, insert_alert, insert_indicator,
}
use aegis_edr.Storage.Tables.{
  Table, Tables, ProcessRow, FileRow, ConnectionRow, AlertRow, IndicatorRow, has_process, add_row,
  new_process, new_file, new_connection, new_alert, new_indicator, insert, is_referenced,
}
use aegis_edr.Storage.Tables.Keys.{HasKeys, add_row-HasKeys, add_row-some}

-- The row refers to a process that the tables have.
abbrev pub Refers : List ProcessRow → ℤ → Type 0
Refers processes id = any (λ p. pos p.process_id == id) processes ≡ true

-- Keys are unique, and every reference to a process is to a row of `processes`.
pub record IsSound (t : Tables) : Type 0 where
  pub process_keys : HasKeys (λ (r : ProcessRow). r.process_id) t.processes
  pub indicator_keys : HasKeys (λ (r : IndicatorRow). r.indicator_id) t.indicators
  pub file_keys : HasKeys (λ (r : FileRow). r.event_id) t.files
  pub connection_keys : HasKeys (λ (r : ConnectionRow). r.connection_id) t.connections
  pub alert_keys : HasKeys (λ (r : AlertRow). r.alert_id) t.alerts
  pub file_processes : All (λ (r : FileRow). Refers t.processes.rows r.process_id) t.files.rows
  pub connection_processes :
      All (λ (r : ConnectionRow). Refers t.processes.rows r.process_id) t.connections.rows
  pub alert_processes : All (λ (r : AlertRow). Refers t.processes.rows r.process_id) t.alerts.rows

pub set_files-IsSound :
    (t : Tables) (new : Table FileRow)
    → IsSound t
    → HasKeys (λ (r : FileRow). r.event_id) new
    → All (λ (r : FileRow). Refers t.processes.rows r.process_id) new.rows
    → IsSound (record t { files = new })
set_files-IsSound t new h keys refers = record {
  process_keys = h.process_keys;
  indicator_keys = h.indicator_keys;
  file_keys = keys;
  file_processes = refers;
  connection_keys = h.connection_keys;
  connection_processes = h.connection_processes;
  alert_keys = h.alert_keys;
  alert_processes = h.alert_processes;
}

pub set_connections-IsSound :
    (t : Tables) (new : Table ConnectionRow)
    → IsSound t
    → HasKeys (λ (r : ConnectionRow). r.connection_id) new
    → All (λ (r : ConnectionRow). Refers t.processes.rows r.process_id) new.rows
    → IsSound (record t { connections = new })
set_connections-IsSound t new h keys refers = record {
  process_keys = h.process_keys;
  indicator_keys = h.indicator_keys;
  file_keys = h.file_keys;
  file_processes = h.file_processes;
  connection_keys = keys;
  connection_processes = refers;
  alert_keys = h.alert_keys;
  alert_processes = h.alert_processes;
}

pub set_alerts-IsSound :
    (t : Tables) (new : Table AlertRow)
    → IsSound t
    → HasKeys (λ (r : AlertRow). r.alert_id) new
    → All (λ (r : AlertRow). Refers t.processes.rows r.process_id) new.rows
    → IsSound (record t { alerts = new })
set_alerts-IsSound t new h keys refers = record {
  process_keys = h.process_keys;
  indicator_keys = h.indicator_keys;
  file_keys = h.file_keys;
  file_processes = h.file_processes;
  connection_keys = h.connection_keys;
  connection_processes = h.connection_processes;
  alert_keys = keys;
  alert_processes = refers;
}

int_beq_self : (id : ℤ) → (id == id) ≡ true
int_beq_self id = (int_beq_iff id id).1 refl

moved-All :
    {R : Type 0} (id : R → ℤ) (rows : List R) (old new : List ProcessRow)
    → ((i : ℤ) → any (λ r. id r == i) rows ≡ true → Refers old i → Refers new i)
    → All (λ r. Refers old (id r)) rows
    → All (λ r. Refers new (id r)) rows
moved-All id rows old new stays h =
    All-map (λ r. (any (λ s. id s == id r) rows ≡ true) × Refers old (id r))
      (λ r. Refers new (id r)) rows (λ r both. stays (id r) both.0 both.1)
      (All-and (λ r. any (λ s. id s == id r) rows ≡ true) (λ r. Refers old (id r)) rows
        (All-any (λ s r. id s == id r) rows (λ r. int_beq_self (id r))) h)

-- The rows of `processes` change, and each row that is referred to stays.
pub set_processes-IsSound :
    (t : Tables) (new : Table ProcessRow)
    → IsSound t
    → HasKeys (λ (r : ProcessRow). r.process_id) new
    → ((id : ℤ) → is_referenced t id ≡ true → Refers t.processes.rows id → Refers new.rows id)
    → IsSound (record t { processes = new })
set_processes-IsSound t new h keys stays = record {
  process_keys = keys;
  indicator_keys = h.indicator_keys;
  file_keys = h.file_keys;
  connection_keys = h.connection_keys;
  alert_keys = h.alert_keys;
  file_processes =
      moved-All (λ r. r.process_id) t.files.rows t.processes.rows new.rows
        (λ i found. stays i (ground (arith, found))) h.file_processes;
  connection_processes =
      moved-All (λ r. r.process_id) t.connections.rows t.processes.rows new.rows
        (λ i found. stays i (ground (arith, found))) h.connection_processes;
  alert_processes =
      moved-All (λ r. r.process_id) t.alerts.rows t.processes.rows new.rows
        (λ i found. stays i (ground (arith, found))) h.alert_processes;
}

pub set_indicators-IsSound :
    (t : Tables) (new : Table IndicatorRow)
    → IsSound t
    → HasKeys (λ (r : IndicatorRow). r.indicator_id) new
    → IsSound (record t { indicators = new })
set_indicators-IsSound t new h keys = record {
  process_keys = h.process_keys;
  indicator_keys = keys;
  file_keys = h.file_keys;
  connection_keys = h.connection_keys;
  alert_keys = h.alert_keys;
  file_processes = h.file_processes;
  connection_processes = h.connection_processes;
  alert_processes = h.alert_processes;
}

-- One row more, and every row still refers to a process.
added-All :
    {R : Type 0} (P : R → Type 0) (t new : Table R) (new_row : ℕ → R)
    → add_row t new_row ≡ some new
    → All P t.rows
    → P (new_row (t.last_id + 1))
    → All P new.rows
added-All P t new new_row added h last =
    rw (add_row-some t new new_row added)
      (All-append P t.rows (new_row (t.last_id + 1) ∷ []) h (last, tt))

added-Refers :
    (t new : Table ProcessRow) (new_row : ℕ → ProcessRow)
    → add_row t new_row ≡ some new
    → (id : ℤ) → Refers t.rows id
    → Refers new.rows id
added-Refers t new new_row added id found =
    rw (add_row-some t new new_row added)
      (any-append_left (λ p. pos p.process_id == id) t.rows (new_row (t.last_id + 1) ∷ []) found)

-- A result, where there is one, is sound.
abbrev pub Held : Option Tables → Type 0
Held none = Unit
Held (some t) = IsSound t

map-Held :
    {R : Type 0} (changed : R → Tables) (o : Option R)
    → ((r : R) → o ≡ some r → IsSound (changed r))
    → Held (option_map changed o)
map-Held changed none h = tt
map-Held changed (some r) h = h r refl

if-Held : (b : Bool) (o : Option Tables) → (b ≡ true → Held o) → Held (if b then o else none)
if-Held true o h = h refl
if-Held false o h = tt

pub unless-Held :
    (b : Bool) (o : Option Tables) → (b ≡ false → Held o) → Held (if b then none else o)
unless-Held true o h = tt
unless-Held false o h = h refl

pub insert-Held : (t : Tables) (q : Stmt) → IsSound t → Held (insert t q)
unfolding insert
insert-Held t (insert_process parent_id binary_path sha256 command_line username) h =
    let row = new_process t parent_id binary_path sha256 command_line username in
    map-Held (λ new. record t { processes = new }) (add_row t.processes row)
      (λ new added.
        set_processes-IsSound t new h
          (add_row-HasKeys (λ r. r.process_id) t.processes new row h.process_keys (λ _. refl) added)
          (λ id _ found. added-Refers t.processes new row added id found))
insert-Held t (insert_file process_id file_path action) h =
    let row = new_file t process_id file_path action in
    if-Held (has_process t process_id) _ (λ found.
      map-Held (λ new. record t { files = new }) (add_row t.files row)
        (λ new added.
          set_files-IsSound t new h
            (add_row-HasKeys (λ r. r.event_id) t.files new row h.file_keys (λ _. refl) added)
            (added-All (λ r. Refers t.processes.rows r.process_id) t.files new row added
              h.file_processes found)))
insert-Held t (insert_network process_id protocol local_ip local_port remote_ip remote_port) h =
    let row = new_connection t process_id protocol local_ip local_port remote_ip remote_port in
    if-Held (has_process t process_id) _ (λ found.
      map-Held (λ new. record t { connections = new }) (add_row t.connections row)
        (λ new added.
          set_connections-IsSound t new h
            (add_row-HasKeys (λ r. r.connection_id) t.connections new row h.connection_keys
              (λ _. refl) added)
            (added-All (λ r. Refers t.processes.rows r.process_id) t.connections new row added
              h.connection_processes found)))
insert-Held t (insert_alert rule_name category risk_score description process_id) h =
    let row = new_alert t rule_name category risk_score description process_id in
    if-Held (has_process t process_id) _ (λ found.
      map-Held (λ new. record t { alerts = new }) (add_row t.alerts row)
        (λ new added.
          set_alerts-IsSound t new h
            (add_row-HasKeys (λ r. r.alert_id) t.alerts new row h.alert_keys (λ _. refl) added)
            (added-All (λ r. Refers t.processes.rows r.process_id) t.alerts new row added
              h.alert_processes found)))
insert-Held t (insert_indicator pattern_text pattern_type threat_label) h =
    let row = new_indicator t pattern_text pattern_type threat_label in
    map-Held (λ new. record t { indicators = new }) (add_row t.indicators row)
      (λ new added. set_indicators-IsSound t new h (
        add_row-HasKeys (λ r. r.indicator_id) t.indicators new row h.indicator_keys (λ _. refl)
          added))
