-- ===== src/Router/Rootless.antt =====
-- internal/eventrouter/eventrouter.go over the tables of internal/storage/storage.go: events whose
-- process has no row.
use aegis_edr.Prelude.{
  ◌≡◌, refl, List, [], ◌∷◌, false, none, some, arith, All, All-append, Bool-cases, Option-cases,
  inl, inr, string_eq, ◌==◌, if◌then◌else◌,
}
use aegis_edr.Storage.Sql.{Stmt}
use aegis_edr.Storage.Tables.{Tables, Engine, sqlite, insert, execute, has_process}
use aegis_edr.Router.{
  Event, type_process, event_stmts, try_exec, exec_all, process_batch, process_batch_event,
  committed, flush_store, telemetry_stmt, self_defense_alert, is_tampering,
}

-- A file or network event (or one of an unknown type) whose process id is the key of no process row.
abbrev pub IsRootless : Tables → Event → Type 0
IsRootless t e = ((e.type == type_process) ≡ false) × (has_process t e.process_id ≡ false)

module _ (engine : Engine) where
  Rejected : Tables → Stmt → Type 0
  Rejected t q = execute engine t q ≡ none

  alert-Rejected :
      (t : Tables) (e : Event)
      → has_process t e.process_id ≡ false
      → All (Rejected t) (if is_tampering e then self_defense_alert e ∷ [] else [])
  unfolding Rejected execute insert self_defense_alert
  alert-Rejected t e no_row = elim (Bool-cases (is_tampering e)) [
    | inl tampering ↦ rw tampering ((ground (arith, no_row), tt))
    | inr harmless ↦ rw harmless tt
  ]

  telemetry-Rejected :
      (t : Tables) (e : Event)
      → IsRootless t e
      → (q : Stmt) → telemetry_stmt e ≡ some q
      → Rejected t q
  unfolding Rejected execute insert telemetry_stmt
  telemetry-Rejected t e (other, no_row) q sent = ground (arith, other, no_row, sent)

  event-Rejected : (t : Tables) (e : Event) → IsRootless t e → All (Rejected t) (event_stmts e)
  unfolding event_stmts
  event-Rejected t e h =
      All-append (Rejected t) (if is_tampering e then self_defense_alert e ∷ [] else []) _
        (alert-Rejected t e h.1)
        (elim (Option-cases (telemetry_stmt e)) [
          | inl silent ↦ rw silent tt
          | inr (q, sent) ↦ rw sent ((telemetry-Rejected t e h q sent, tt))
        ])

  exec_all-Rejected :
      (t : Tables) (qs : List Stmt) → All (Rejected t) qs → exec_all (sqlite engine) t qs ≡ t
  unfolding exec_all try_exec Rejected
  exec_all-Rejected t [] h = refl
  exec_all-Rejected t (q ∷ qs) (first, h) = rw (try_exec, first) (exec_all-Rejected t qs h)

  process_batch-Rejected :
      (t : Tables) (batch : List Event)
      → All (IsRootless t) batch
      → process_batch (sqlite engine) t batch ≡ t
  unfolding process_batch process_batch_event
  process_batch-Rejected t [] h = refl
  process_batch-Rejected t (e ∷ es) (first, h) =
      rw (exec_all-Rejected t (event_stmts e) (event-Rejected t e first))
        (process_batch-Rejected t es h)

  -- A flush of file and network events stores none of them, and none of the agent's self-defense
  -- alerts about them, where the process id of each event is the key of no row of `processes`: the
  -- database is as it was.
  pub flush_store_rootless :
      (t : Tables) (batch : List Event)
      → All (IsRootless t) batch
      → flush_store (sqlite engine) t batch ≡ t
  unfolding flush_store committed
  flush_store_rootless t batch h = ground (arith, process_batch-Rejected t batch h)
