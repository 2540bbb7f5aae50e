-- ===== src/Storage/Tables/Evidence.antt =====
-- internal/storage/storage.go and internal/eventrouter/eventrouter.go: no history loses what the tables
-- have of a process with an alert.
use mathlib.Core.List.{append-nil, append_assoc}
use mathlib.Core.Option.{map as option_map}
use aegis_edr.Prelude.{
  ℕ, ◌+◌, ℤ, pos, Bool, true, false, not, ◌&&◌, ◌||◌, Option, none, some, List, [], ◌∷◌, ◌++◌, ◌≡◌,
  refl, sym, ap, ◌∙◌, subst, arith, keep, keep-append, any, any-append_left, ◌==◌, int_eq,
  int_beq_iff, if◌then◌else◌,
}
use aegis_edr.Router.Keeps.{flush_store-keeps}
use aegis_edr.Storage.Sql.{
  Stmt, insert_process, insert_file, insert_network, insert_alert, insert_indicator,
}
use aegis_edr.Storage.Tables.{
  Tables, Table, Engine, AlertRow, add_row, has_process, is_alerted, is_stale, stale_process,
  is_referenced, new_process, new_file, new_connection, new_alert, new_indicator, insert, execute,
  sqlite, delete_files, delete_connections, delete_processes, prune_old_telemetry, after,
  delete_rows,
}
use aegis_edr.Storage.Tables.History.{
  Action, executes, flushes, prunes, passes, act, evolve, settled,
}
use aegis_edr.Storage.Tables.Keys.{add_row-some}

-- The first list, and what came after it.
abbrev pub IsStart : {R : Type 0} → List R → List R → Type 0
IsStart {R = R} xs ys = (later : List R) × (ys ≡ xs ++ later)

-- The second tables have an alert of the process, and all rows of it that the first have, the oldest
-- first: of processes, files, connections and alerts.
abbrev pub Keeps : ℤ → Tables → Tables → Type 0
Keeps id t t' =
    (is_alerted t' id ≡ true)
    × IsStart (keep (λ p. pos p.process_id == id) t.processes.rows)
        (keep (λ p. pos p.process_id == id) t'.processes.rows)
    × IsStart (keep (λ f. f.process_id == id) t.files.rows)
        (keep (λ f. f.process_id == id) t'.files.rows)
    × IsStart (keep (λ n. n.process_id == id) t.connections.rows)
        (keep (λ n. n.process_id == id) t'.connections.rows)
    × IsStart (keep (λ a. a.process_id == id) t.alerts.rows)
        (keep (λ a. a.process_id == id) t'.alerts.rows)

-- A row more, at the end.
add_row-IsStart :
    {R : Type 0} (of : R → ℤ) (id : ℤ) (xs : List R) (t new : Table R) (row : ℕ → R)
    → add_row t row ≡ some new
    → IsStart xs (keep (λ r. of r == id) t.rows)
    → IsStart xs (keep (λ r. of r == id) new.rows)
add_row-IsStart of id xs t new row added (later, same) =
    let last = row (t.last_id + 1) ∷ [] in
    rw (add_row-some t new row added) (
      later ++ keep (λ r. of r == id) last,
      keep-append (λ r. of r == id) t.rows last
          ∙ ap (λ ys. ys ++ keep (λ r. of r == id) last) same
          ∙ append_assoc xs later (keep (λ r. of r == id) last),
    )

-- Rows of a process with an alert are not stale.
delete_rows-same :
    {R : Type 0} (engine : Engine) (at : R → ℕ) (of : R → ℤ) (t : Tables) (cutoff : ℕ) (id : ℤ)
    (rows : List R)
    → is_alerted t id ≡ true
    → keep (λ r. of r == id) (keep (λ r. not (is_stale engine t cutoff (at r) (of r))) rows)
      ≡ keep (λ r. of r == id) rows
delete_rows-same engine at of t cutoff id [] alerted = refl
delete_rows-same engine at of t cutoff id (r ∷ rows) alerted =
    ground (
      arith,
      alerted,
      delete_rows-same engine at of t cutoff id rows alerted,
      int_beq_iff (of r) id,
    )

module _ (id : ℤ) (start : Tables) where
  -- Where there is a result, it keeps the rows.
  abbrev Kept : Option Tables → Type 0
  Kept none = Unit
  Kept (some t) = Keeps id start t

  map-Kept :
      {R : Type 0} (changed : R → Tables) (o : Option R)
      → ((r : R) → o ≡ some r → Keeps id start (changed r))
      → Kept (option_map changed o)
  map-Kept changed none h = tt
  map-Kept changed (some r) h = h r refl

  if-Kept : (b : Bool) (o : Option Tables) → Kept o → Kept (if b then o else none)
  if-Kept true o h = h
  if-Kept false o h = tt

  unless-Kept : (b : Bool) (o : Option Tables) → Kept o → Kept (if b then none else o)
  unless-Kept true o h = tt
  unless-Kept false o h = h

  insert-Kept : (t : Tables) (q : Stmt) → Keeps id start t → Kept (insert t q)
  unfolding insert
  insert-Kept t (insert_process parent_id binary_path sha256 command_line username)
        (a, p, f, n, l) =
      let row = new_process t parent_id binary_path sha256 command_line username in
      map-Kept (λ new. record t { processes = new }) (add_row t.processes row)
        (λ new added.
          (a, add_row-IsStart (λ r. pos r.process_id) id _ t.processes new row added p, f, n, l))
  insert-Kept t (insert_file process_id file_path action) (a, p, f, n, l) =
      let row = new_file t process_id file_path action in
      if-Kept (has_process t process_id) _ (
        map-Kept (λ new. record t { files = new }) (add_row t.files row)
          (λ new added.
            (a, p, add_row-IsStart (λ r. r.process_id) id _ t.files new row added f, n, l)))
  insert-Kept t (insert_network process_id protocol local_ip local_port remote_ip remote_port)
        (a, p, f, n, l) =
      let row = new_connection t process_id protocol local_ip local_port remote_ip remote_port in
      if-Kept (has_process t process_id) _ (
        map-Kept (λ new. record t { connections = new }) (add_row t.connections row)
          (λ new added.
            (a, p, f, add_row-IsStart (λ r. r.process_id) id _ t.connections new row added n, l)))
  insert-Kept t (insert_alert rule_name category risk_score description process_id)
        (a, p, f, n, l) =
      let row = new_alert t rule_name category risk_score description process_id in
      if-Kept (has_process t process_id) _ (
        map-Kept (λ new. record t { alerts = new }) (add_row t.alerts row)
          (λ new added. (
            subst (λ (table : Table AlertRow). any (λ r. r.process_id == id) table.rows ≡ true)
                (sym (add_row-some t.alerts new row added))
                (any-append_left (λ r. r.process_id == id) t.alerts.rows _ a),
            p,
            f,
            n,
            add_row-IsStart (λ r. r.process_id) id _ t.alerts new row added l,
          )))
  insert-Kept t (insert_indicator pattern_text pattern_type threat_label) h =
      map-Kept (λ new. record t { indicators = new })
        (add_row t.indicators (new_indicator t pattern_text pattern_type threat_label))
        (λ new added. h)

module _ (engine : Engine) (id : ℤ) (start : Tables) where
  execute-Kept : (t : Tables) (q : Stmt) → Keeps id start t → Kept id start (execute engine t q)
  unfolding execute
  execute-Kept t q h =
      unless-Kept id start (engine.fails t) (insert t q) (insert-Kept id start t q h)

  delete_files-Kept :
      (t : Tables) (cutoff : ℕ) → Keeps id start t → Kept id start (delete_files engine t cutoff)
  unfolding delete_files
  delete_files-Kept t cutoff (a, p, f, n, l) = unless-Kept id start (engine.fails t) _ (
    a,
    p,
    rw (delete_rows-same engine (λ r. r.occurred_at) (λ r. r.process_id) t cutoff id t.files.rows a)
        f,
    n,
    l,
  )

  delete_connections-Kept :
      (t : Tables) (cutoff : ℕ)
      → Keeps id start t
      → Kept id start (delete_connections engine t cutoff)
  unfolding delete_connections
  delete_connections-Kept t cutoff (a, p, f, n, l) = unless-Kept id start (engine.fails t) _ (
    a,
    p,
    f,
    rw
        (delete_rows-same engine (λ r. r.occurred_at) (λ r. r.process_id) t cutoff id
          t.connections.rows a)
        n,
    l,
  )

  delete_processes-Kept :
      (t : Tables) (cutoff : ℕ)
      → Keeps id start t
      → Kept id start (delete_processes engine t cutoff)
  unfolding delete_processes
  delete_processes-Kept t cutoff (a, p, f, n, l) =
      unless-Kept id start
        (engine.fails t
          || any (λ p'. stale_process engine t cutoff p' && is_referenced t (pos p'.process_id))
              t.processes.rows)
        (some (record t { processes = delete_rows (stale_process engine t cutoff) t.processes }))
        (
          a,
          rw
              (delete_rows-same engine (λ r. r.launched_at) (λ r. pos r.process_id) t cutoff id
                t.processes.rows a)
              p,
          f,
          n,
          l,
        )

  after-Keeps :
      (t : Tables) (o : Option Tables) (next : Tables → Tables × Bool)
      → Keeps id start t
      → Kept id start o
      → ((t' : Tables) → Keeps id start t' → Keeps id start (next t').0)
      → Keeps id start (after t o next).0
  after-Keeps t none next h held onward = h
  after-Keeps t (some t') next h held onward = onward t' held

  prune-Keeps :
      (t : Tables) (cutoff : ℕ)
      → Keeps id start t
      → Keeps id start (prune_old_telemetry engine t cutoff).0
  unfolding prune_old_telemetry
  prune-Keeps t cutoff h =
      after-Keeps t (delete_files engine t cutoff) _ h (delete_files-Kept t cutoff h) (λ t₁ h₁.
        after-Keeps t₁ (delete_connections engine t₁ cutoff) _ h₁
          (delete_connections-Kept t₁ cutoff h₁)
          (λ t₂ h₂.
            after-Keeps t₂ (delete_processes engine t₂ cutoff) _ h₂
              (delete_processes-Kept t₂ cutoff h₂) (λ _ h₃. h₃)))

  settled-Keeps :
      (t : Tables) (o : Option Tables)
      → Keeps id start t
      → Kept id start o
      → Keeps id start (settled engine t o)
  unfolding settled
  settled-Keeps t none h held = h
  settled-Keeps t (some t') h held = held

  act-Keeps : (t : Tables) (a : Action) → Keeps id start t → Keeps id start (act engine t a)
  unfolding act
  act-Keeps t (executes q) h = settled-Keeps t (execute engine t q) h (execute-Kept t q h)
  act-Keeps t (flushes batch) h =
      flush_store-keeps (sqlite engine) (Keeps id start)
        (λ db db' q kept done. subst (Kept id start) done (execute-Kept db q kept))
        (λ db db' made _ kept done.
          subst (Kept id start) done (unless-Kept id start (engine.fails db') (some db') kept))
        t batch h
  act-Keeps t (prunes cutoff) h = prune-Keeps t cutoff h
  act-Keeps t (passes elapsed) h = h

  evolve_on :
      (t : Tables) (actions : List Action)
      → Keeps id start t
      → Keeps id start (evolve engine t actions)
  unfolding evolve
  evolve_on t [] h = h
  evolve_on t (a ∷ actions) h = evolve_on (act engine t a) actions (act-Keeps t a h)

-- No history of statements, flushes of the router, prunings and time that passes loses what the
-- tables have of a process that has an alert: it keeps an alert, and its rows of processes, files,
-- connections and alerts stay, in order, before the ones that come later. So too where the engine
-- fails, and where a pruning stops halfway.
pub evolve-Keeps :
    (engine : Engine) (t : Tables) (actions : List Action) (id : ℤ)
    → is_alerted t id ≡ true
    → Keeps id t (evolve engine t actions)
evolve-Keeps engine t actions id alerted = evolve_on engine id t t actions (
  alerted,
  ([], sym (append-nil _)),
  ([], sym (append-nil _)),
  ([], sym (append-nil _)),
  ([], sym (append-nil _)),
)
