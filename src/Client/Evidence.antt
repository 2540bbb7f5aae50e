-- ===== src/Client/Evidence.antt =====
-- cmd/aegis/main.go with cmd/aegisd/main.go: what the pruning of the daemon leaves of an investigation.
use aegis_edr.Prelude.{
  ◌≡◌, refl, ◌∙◌, ap, inl, inr, ℕ, ℤ, pos, String, Bool, true, false, not, some, List, [], ◌∷◌,
  arith, keep, map, int_eq, int_beq_iff, Bool-cases,
}
use aegis_edr.Client.Queries.{
  Reader, is_key, first_row, find_process, file_lines, network_lines, alert_lines, investigate,
}
use aegis_edr.Daemon.{prune_loop, week_before}
use aegis_edr.Storage.Tables.{
  Tables, Table, is_alerted, is_stale, select, delete_rows, prune_old_telemetry,
}
use aegis_edr.Storage.Tables.Prune.{without_children, without_stale, is_pinned, prune_outcome}

module _ (reader : Reader) where
  open reader use {engine, affinity}

  -- The text stands for a process with an alert.
  abbrev pub IsAlerted : Tables → String → Type 0
  IsAlerted t target = (id : ℤ) × (affinity target ≡ some id) × (is_alerted t id ≡ true)

  -- The rows of a process with an alert are not stale.
  keep-kept :
      {R : Type 0} (at : R → ℕ) (of : R → ℤ) (t : Tables) (cutoff : ℕ) (target : String) (id : ℤ)
      (rows : List R)
      → affinity target ≡ some id
      → is_alerted t id ≡ true
      → keep
          (λ r. is_key reader target (of r))
          (keep (λ r. not (is_stale engine t cutoff (at r) (of r))) rows)
        ≡ keep (λ r. is_key reader target (of r)) rows
  unfolding is_key
  keep-kept at of t cutoff target id [] named alerted = refl
  keep-kept at of t cutoff target id (r ∷ rows) named alerted = ground (
    arith,
    named,
    alerted,
    keep-kept at of t cutoff target id rows named alerted,
    int_beq_iff (of r) id,
  )

  select-kept :
      {R A : Type 0} (at : R → ℕ) (of : R → ℤ) (column : R → A) (t t' : Tables) (table : Table R)
      (cutoff : ℕ) (target : String)
      → ((t' : Tables) → engine.fails t' ≡ false)
      → IsAlerted t target
      → select engine t'
          (delete_rows (λ r. is_stale engine t cutoff (at r) (of r)) table)
          (λ r. is_key reader target (of r))
          column
        ≡ select engine t table (λ r. is_key reader target (of r)) column
  unfolding select
  select-kept at of column t t' table cutoff target works (id, named, alerted) =
      rw (works t, works t')
        (ap (λ rows. some (map column rows))
          (keep-kept at of t cutoff target id table.rows named alerted))

  -- Without a change, a query finds the same rows.
  select-same :
      {R A : Type 0} (column : R → A) (t t' : Tables) (table : Table R) (test : R → Bool)
      → ((t' : Tables) → engine.fails t' ≡ false)
      → select engine t' table test column ≡ select engine t table test column
  unfolding select
  select-same column t t' table test works = rw (works t, works t') refl

  -- Two databases that answer the four queries alike give one investigation.
  investigate_cong :
      (t t' : Tables) (target : String)
      → find_process reader t' target ≡ find_process reader t target
      → file_lines reader t' target ≡ file_lines reader t target
      → network_lines reader t' target ≡ network_lines reader t target
      → alert_lines reader t' target ≡ alert_lines reader t target
      → investigate reader t' target ≡ investigate reader t target
  unfolding investigate
  investigate_cong t t' target same_process same_files same_connections same_alerts =
      rw (same_process, same_files, same_connections, same_alerts) refl

  investigate-without_children :
      (t : Tables) (cutoff : ℕ) (target : String)
      → ((t' : Tables) → engine.fails t' ≡ false)
      → IsAlerted t target
      → investigate reader (without_children engine t cutoff) target ≡ investigate reader t target
  unfolding find_process file_lines network_lines alert_lines
  investigate-without_children t cutoff target works alerted =
      let t' = without_children engine t cutoff in
      investigate_cong t t' target (ap first_row (select-same (λ p. p) t t' t.processes _ works))
        (select-kept (λ f. f.occurred_at) (λ f. f.process_id) _ t t' t.files cutoff target works
          alerted)
        (select-kept (λ n. n.occurred_at) (λ n. n.process_id) _ t t' t.connections cutoff target
          works alerted)
        (select-same _ t t' t.alerts _ works)

  investigate-without_stale :
      (t : Tables) (cutoff : ℕ) (target : String)
      → ((t' : Tables) → engine.fails t' ≡ false)
      → IsAlerted t target
      → investigate reader (without_stale engine t cutoff) target ≡ investigate reader t target
  unfolding find_process file_lines network_lines alert_lines
  investigate-without_stale t cutoff target works alerted =
      let t' = without_stale engine t cutoff in
      investigate_cong t t' target
        (ap first_row (
          select-kept (λ p. p.launched_at) (λ p. pos p.process_id) (λ p. p) t t' t.processes cutoff
            target works alerted))
        (select-kept (λ f. f.occurred_at) (λ f. f.process_id) _ t t' t.files cutoff target works
          alerted)
        (select-kept (λ n. n.occurred_at) (λ n. n.process_id) _ t t' t.connections cutoff target
          works alerted)
        (select-same _ t t' t.alerts _ works)

  investigate-prune :
      (t : Tables) (cutoff : ℕ) (target : String)
      → ((t' : Tables) → engine.fails t' ≡ false)
      → IsAlerted t target
      → IsAlerted (prune_old_telemetry engine t cutoff).0 target
        × (investigate reader (prune_old_telemetry engine t cutoff).0 target
            ≡ investigate reader t target)
  investigate-prune t cutoff target works (id, named, there) =
      elim (Bool-cases (is_pinned engine t cutoff)) [
        | inl pinned ↦
            rw (prune_outcome engine t cutoff works, pinned)
              (
                (id, named, there),
                investigate-without_children t cutoff target works (id, named, there),
              )
        | inr free ↦
            rw (prune_outcome engine t cutoff works, free)
              (
                (id, named, there),
                investigate-without_stale t cutoff target works (id, named, there),
              )
      ]

  -- On an engine that does not fail, however often the daemon prunes, and at whatever times: the
  -- investigation of a process that has an alert prints what it printed before.
  pub investigate-prune_loop :
      (t : Tables) (ticks : List ℕ) (target : String)
      → ((t' : Tables) → engine.fails t' ≡ false)
      → IsAlerted t target
      → investigate reader (prune_loop engine t ticks) target ≡ investigate reader t target
  unfolding prune_loop
  investigate-prune_loop t [] target works alerted = refl
  investigate-prune_loop t (now ∷ ticks) target works alerted =
      let t' = (prune_old_telemetry engine t (week_before now)).0 in
      let (still, same) = investigate-prune t (week_before now) target works alerted in
      investigate-prune_loop t' ticks target works still ∙ same
