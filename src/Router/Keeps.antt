-- ===== src/Router/Keeps.antt =====
-- internal/eventrouter/eventrouter.go: what each statement keeps of the store, a flush keeps.
use aegis_edr.Prelude.{◌≡◌, List, [], ◌∷◌, some, Option-cases, Bool-cases, inl, inr}
use aegis_edr.Storage.Sql.{Database, Stmt}
use aegis_edr.Router.{
  Event, event_stmts, try_exec, exec_all, process_batch, process_batch_event, committed,
  flush_store,
}

module _ (sql : Database) (Kept : sql.Db → Type 0)
    (exec_keeps : (db db' : sql.Db) (q : Stmt) → Kept db → sql.exec db q ≡ some db' → Kept db')
    (commit_keeps : (db db' made : sql.Db)
      → Kept db
      → Kept db'
      → sql.commit db db' ≡ some made
      → Kept made) where
  open sql use {Db, begins, commit, exec}

  try_exec-keeps : (tx : Db) (q : Stmt) → Kept tx → Kept (try_exec sql tx q)
  unfolding try_exec
  try_exec-keeps tx q h = elim (Option-cases (exec tx q)) [
    | inl failed ↦ rw (try_exec, failed) h
    | inr (tx', done) ↦ rw (try_exec, done) (exec_keeps tx tx' q h done)
  ]

  exec_all-keeps : (tx : Db) (qs : List Stmt) → Kept tx → Kept (exec_all sql tx qs)
  unfolding exec_all
  exec_all-keeps tx [] h = h
  exec_all-keeps tx (q ∷ qs) h = exec_all-keeps (try_exec sql tx q) qs (try_exec-keeps tx q h)

  process_batch-keeps : (tx : Db) (batch : List Event) → Kept tx → Kept (process_batch sql tx batch)
  unfolding process_batch process_batch_event
  process_batch-keeps tx [] h = h
  process_batch-keeps tx (e ∷ es) h =
      process_batch-keeps (exec_all sql tx (event_stmts e)) es (exec_all-keeps tx (event_stmts e) h)

  pub flush_store-keeps : (db : Db) (batch : List Event) → Kept db → Kept (flush_store sql db batch)
  unfolding flush_store committed
  flush_store-keeps db batch h = elim (Bool-cases (begins db)) [
    | inl begun ↦ rw begun (elim (Option-cases (commit db (process_batch sql db batch))) [
      | inl failed ↦ rw failed h
      | inr (made, done) ↦ rw done (
          commit_keeps db (process_batch sql db batch) made h (process_batch-keeps db batch h) done)
    ])
    | inr refused ↦ rw refused h
  ]
