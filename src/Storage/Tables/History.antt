-- ===== src/Storage/Tables/History.antt =====
-- internal/storage/storage.go and internal/eventrouter/eventrouter.go: every history of statements,
-- flushes and prunings keeps the tables sound.
use aegis_edr.Prelude.{
  ℕ, ◌+◌, ℤ, pos, Bool, true, false, not, ◌&&◌, ◌||◌, Option, none, some, List, [], ◌∷◌, ◌≡◌, subst,
  arith, keep, any, int_eq, int_beq_iff, All-keep,
}
use aegis_edr.Storage.Sql.{Stmt}
use aegis_edr.Storage.Tables.{
  Tables, Engine, ProcessRow, FileRow, ConnectionRow, created, delete_rows, insert, execute, sqlite,
  delete_files, delete_connections, delete_processes, prune_old_telemetry, after, stale_process,
  is_stale, is_referenced,
}
use aegis_edr.Storage.Tables.Keys.{delete_rows-HasKeys}
use aegis_edr.Router.{Event, flush_store}
use aegis_edr.Router.Keeps.{flush_store-keeps}
use aegis_edr.Storage.Tables.Sound.{
  IsSound, Held, Refers, unless-Held, insert-Held, set_files-IsSound, set_connections-IsSound,
  set_processes-IsSound,
}

module _ (engine : Engine) where
  execute-Held : (t : Tables) (q : Stmt) → IsSound t → Held (execute engine t q)
  unfolding execute
  execute-Held t q h = unless-Held (engine.fails t) (insert t q) (λ _. insert-Held t q h)

  delete_files-Held : (t : Tables) (cutoff : ℕ) → IsSound t → Held (delete_files engine t cutoff)
  unfolding delete_files
  delete_files-Held t cutoff h = unless-Held (engine.fails t) _ (λ _.
      let gone = λ (f : FileRow). is_stale engine t cutoff f.occurred_at f.process_id in
      set_files-IsSound t (delete_rows gone t.files) h
        (delete_rows-HasKeys (λ r. r.event_id) gone t.files h.file_keys)
        (All-keep _ (λ r. not (gone r)) t.files.rows h.file_processes))

  delete_connections-Held :
      (t : Tables) (cutoff : ℕ) → IsSound t → Held (delete_connections engine t cutoff)
  unfolding delete_connections
  delete_connections-Held t cutoff h = unless-Held (engine.fails t) _ (λ _.
      let gone = λ (n : ConnectionRow). is_stale engine t cutoff n.occurred_at n.process_id in
      set_connections-IsSound t (delete_rows gone t.connections) h
        (delete_rows-HasKeys (λ r. r.connection_id) gone t.connections h.connection_keys)
        (All-keep _ (λ r. not (gone r)) t.connections.rows h.connection_processes))

  -- Where no row that goes is referred to, each row that is referred to stays.
  kept-Refers :
      (gone : ProcessRow → Bool) (referenced : ℤ → Bool) (rows : List ProcessRow) (id : ℤ)
      → any (λ p. gone p && referenced (pos p.process_id)) rows ≡ false
      → referenced id ≡ true
      → Refers rows id
      → Refers (keep (λ p. not (gone p)) rows) id
  kept-Refers gone referenced [] id none_go used found = found
  kept-Refers gone referenced (p ∷ rows) id none_go used found = ground (
    arith,
    none_go,
    used,
    found,
    kept-Refers gone referenced rows id,
    int_beq_iff (pos p.process_id) id,
  )

  delete_processes-Held :
      (t : Tables) (cutoff : ℕ) → IsSound t → Held (delete_processes engine t cutoff)
  unfolding delete_processes
  delete_processes-Held t cutoff h =
      unless-Held
        (engine.fails t
          || any (λ p. stale_process engine t cutoff p && is_referenced t (pos p.process_id))
              t.processes.rows)
        _
        (λ allowed.
          let gone = stale_process engine t cutoff in
          set_processes-IsSound t (delete_rows gone t.processes) h
            (delete_rows-HasKeys (λ r. r.process_id) gone t.processes h.process_keys)
            (λ id used found.
              kept-Refers gone (is_referenced t) t.processes.rows id (ground (arith, allowed)) used
                found))

  after-IsSound :
      (t : Tables) (o : Option Tables) (next : Tables → Tables × Bool)
      → IsSound t
      → Held o
      → ((t' : Tables) → IsSound t' → IsSound (next t').0)
      → IsSound (after t o next).0
  after-IsSound t none next h held onward = h
  after-IsSound t (some t') next h held onward = onward t' held

  prune-IsSound :
      (t : Tables) (cutoff : ℕ) → IsSound t → IsSound (prune_old_telemetry engine t cutoff).0
  unfolding prune_old_telemetry
  prune-IsSound t cutoff h =
      after-IsSound t (delete_files engine t cutoff) _ h (delete_files-Held t cutoff h) (λ t₁ h₁.
        after-IsSound t₁ (delete_connections engine t₁ cutoff) _ h₁
          (delete_connections-Held t₁ cutoff h₁)
          (λ t₂ h₂.
            after-IsSound t₂ (delete_processes engine t₂ cutoff) _ h₂
              (delete_processes-Held t₂ cutoff h₂) (λ _ h₃. h₃)))

-- What happens to the database: a statement of its own, a flush of the router, a pruning, and time
-- that passes.
pub data Action : Type 0 where
  executes : Stmt → Action
  flushes : List Event → Action
  prunes : ℕ → Action
  passes : ℕ → Action

module _ (engine : Engine) where
  unfoldable pub settled : Tables → Option Tables → Tables
  settled t none = t
  settled t (some t') = t'

  settled-IsSound : (t : Tables) (o : Option Tables) → IsSound t → Held o → IsSound (settled t o)
  unfolding settled
  settled-IsSound t none h held = h
  settled-IsSound t (some t') h held = held

  unfoldable pub act : Tables → Action → Tables
  unfolding settled
  act t (executes q) = settled t (execute engine t q)
  act t (flushes batch) = flush_store (sqlite engine) t batch
  act t (prunes cutoff) = (prune_old_telemetry engine t cutoff).0
  act t (passes elapsed) = record t { now = t.now + elapsed }

  unfoldable pub evolve : Tables → List Action → Tables
  unfolding act
  evolve t [] = t
  evolve t (a ∷ actions) = evolve (act t a) actions

  flush_store-IsSound :
      (t : Tables) (batch : List Event) → IsSound t → IsSound (flush_store (sqlite engine) t batch)
  flush_store-IsSound t batch h =
      flush_store-keeps (sqlite engine) IsSound
        (λ db db' q kept done. subst Held done (execute-Held engine db q kept))
        (λ db db' made _ kept done.
          subst Held done (unless-Held (engine.fails db') (some db') (λ _. kept)))
        t batch h

  act-IsSound : (t : Tables) (a : Action) → IsSound t → IsSound (act t a)
  unfolding act settled
  act-IsSound t (executes q) h =
      settled-IsSound t (execute engine t q) h (execute-Held engine t q h)
  act-IsSound t (flushes batch) h = flush_store-IsSound t batch h
  act-IsSound t (prunes cutoff) h = prune-IsSound engine t cutoff h
  act-IsSound t (passes elapsed) h = record {
    process_keys = h.process_keys;
    indicator_keys = h.indicator_keys;
    file_keys = h.file_keys;
    connection_keys = h.connection_keys;
    alert_keys = h.alert_keys;
    file_processes = h.file_processes;
    connection_processes = h.connection_processes;
    alert_processes = h.alert_processes;
  }

  -- From sound tables, no history of statements, flushes of the router, prunings and time that passes
  -- leaves two rows of a table with one key, or a row of a file, a connection or an alert whose
  -- process has no row, whatever the engine's failures: so too where a pruning stops halfway.
  pub evolve-IsSound : (t : Tables) (actions : List Action) → IsSound t → IsSound (evolve t actions)
  unfolding evolve
  evolve-IsSound t [] h = h
  evolve-IsSound t (a ∷ actions) h = evolve-IsSound (act t a) actions (act-IsSound t a h)

pub created-IsSound : (now : ℕ) → IsSound (created now)
created-IsSound now = record {
  process_keys = omega arith;
  indicator_keys = omega arith;
  file_keys = omega arith;
  connection_keys = omega arith;
  alert_keys = omega arith;
  file_processes = tt;
  connection_processes = tt;
  alert_processes = tt;
}
