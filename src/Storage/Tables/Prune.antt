-- ===== src/Storage/Tables/Prune.antt =====
-- internal/storage/storage.go: what PruneOldTelemetry deletes, and when it gives up.
use aegis_edr.Prelude.{
  ℕ, ℤ, pos, Bool, true, false, not, ◌&&◌, ◌||◌, if◌then◌else◌, List, [], ◌∷◌, ◌≡◌, refl, arith,
  keep, any, ◌==◌, int_eq, int_beq_iff, Bool-cases, inl, inr,
}
use aegis_edr.Storage.Tables.{
  Tables, Engine, ProcessRow, delete_rows, is_alerted, is_stale, stale_process, is_referenced,
  delete_files, delete_connections, delete_processes, prune_old_telemetry,
}

module _ (engine : Engine) where
  open engine use {earlier, fails}

  -- The tables without their stale rows of files and connections.
  abbrev pub without_children : Tables → ℕ → Tables
  without_children t cutoff = record t {
    files = delete_rows (λ f. is_stale engine t cutoff f.occurred_at f.process_id) t.files;
    connections =
        delete_rows (λ n. is_stale engine t cutoff n.occurred_at n.process_id) t.connections;
  }

  abbrev pub without_stale : Tables → ℕ → Tables
  without_stale t cutoff = record (without_children t cutoff) {
    processes = delete_rows (stale_process engine t cutoff) t.processes;
  }

  -- The process has a row of a file or a connection that is as young as the cutoff.
  abbrev pub is_active : Tables → ℕ → ℤ → Bool
  is_active t cutoff id =
      any (λ f. not (earlier f.occurred_at cutoff) && f.process_id == id) t.files.rows
      || any (λ n. not (earlier n.occurred_at cutoff) && n.process_id == id) t.connections.rows

  -- Some old process without an alert is still active.
  abbrev pub is_pinned : Tables → ℕ → Bool
  is_pinned t cutoff =
      any (λ p. stale_process engine t cutoff p && is_active t cutoff (pos p.process_id))
        t.processes.rows

  -- Of the rows of a process without alerts, the young ones stay.
  any-kept :
      {R : Type 0} (at : R → ℕ) (of : R → ℤ) (t : Tables) (cutoff : ℕ) (id : ℤ) (rows : List R)
      → is_alerted t id ≡ false
      → any (λ r. of r == id) (keep (λ r. not (is_stale engine t cutoff (at r) (of r))) rows)
        ≡ any (λ r. not (earlier (at r) cutoff) && of r == id) rows
  any-kept at of t cutoff id [] quiet = refl
  any-kept at of t cutoff id (r ∷ rows) quiet =
      ground (arith, quiet, any-kept at of t cutoff id rows quiet, int_beq_iff (of r) id)

  referenced-active :
      (t : Tables) (cutoff : ℕ) (p : ProcessRow)
      → (stale_process engine t cutoff p
          && is_referenced (without_children t cutoff) (pos p.process_id))
        ≡ (stale_process engine t cutoff p && is_active t cutoff (pos p.process_id))
  referenced-active t cutoff p =
      let id = pos p.process_id in
      elim (Bool-cases (is_alerted t id)) [
        | inl alerted ↦ ground (arith, alerted)
        | inr quiet ↦ ground (
          arith,
          quiet,
          any-kept (λ f. f.occurred_at) (λ f. f.process_id) t cutoff id t.files.rows quiet,
          any-kept (λ n. n.occurred_at) (λ n. n.process_id) t cutoff id t.connections.rows quiet,
        )
      ]

  any-cong :
      {R : Type 0} (p q : R → Bool) (rows : List R)
      → ((r : R) → p r ≡ q r)
      → any p rows ≡ any q rows
  any-cong p q [] h = refl
  any-cong p q (r ∷ rows) h = ground (arith, h r, any-cong p q rows h)

  -- On an engine that does not fail: where an old process without an alert still has a young row of a
  -- file or a connection, the pruning is an error that deletes no process at all, but every stale row
  -- of files and connections; else it deletes exactly the stale rows of the three tables.
  pub prune_outcome :
      (t : Tables) (cutoff : ℕ)
      → ((t' : Tables) → fails t' ≡ false)
      → prune_old_telemetry engine t cutoff ≡ (
          if is_pinned t cutoff
          then (without_children t cutoff, false)
          else (without_stale t cutoff, true))
  unfolding prune_old_telemetry delete_files delete_connections delete_processes
  prune_outcome t cutoff works = ground (
    arith,
    works t,
    works (record t {
      files = delete_rows (λ f. is_stale engine t cutoff f.occurred_at f.process_id) t.files;
    }),
    works (without_children t cutoff),
    any-cong
        (λ p.
          stale_process engine t cutoff p
          && is_referenced (without_children t cutoff) (pos p.process_id))
        (λ p. stale_process engine t cutoff p && is_active t cutoff (pos p.process_id))
        t.processes.rows (referenced-active t cutoff),
  )
