-- ===== src/Router.antt =====
-- internal/eventrouter/eventrouter.go: the queue between the monitors and the database. Producers
-- call `Submit` at any time, while the goroutine of `Start` empties the queue; a history is a list
-- of such steps. Counters and identifiers are numbers; the log is not modelled.
pub mod Submit
pub mod Delivery
pub mod Shutdown
pub mod Keeps
pub mod Rootless
pub mod Transaction
pub mod Pool
mod Tests
mod Events
unfoldable pub use Events.*
use aegis_edr.Prelude.{
  increment, ℕ, suc, ◌+◌, ◌*◌, ◌/◌, ℤ, pos, String, Option, none, some, List, [], ◌∷◌, ◌++◌, Bool,
  true, false, not, ◌&&◌, ◌||◌, leb, if◌then◌else◌, ◌==◌, string_eq, length, contains, to_lower,
  ◌^^◌, map,
}
use aegis_edr.Channel.{Channel, make, try_send}
use aegis_edr.Storage.Sql.{
  Stmt, insert_process, insert_file, insert_network, insert_alert, Database,
}
use aegis_edr.Batcher
use aegis_edr.Batcher.{Loop, Phase, Signal}

pub record Router (Db : Type 0) : Type 0 where
  -- `eventChan`, and the goroutine's `batch` and place in its loops.
  pub loop : Loop Event
  pub open loop use *
  pub capacity : ℕ
  pub store : Db
  -- The bits of an int64.
  pub dropped_events : ℕ
  pub pool : EventPool

pub data Action : Type 0 where
  submits : Event → Action
  receives ticks closes empties : Action

module _ {Db : Type 0} where
  pub new_router : ℕ → Db → Router Db
  new_router capacity store = record {
    loop = record { queue = make capacity; batch = []; phase = Phase.running };
    capacity = capacity;
    store = store;
    dropped_events = 0;
    pool = [];
  }

  pub dropped_count : Router Db → ℕ
  dropped_count r = r.dropped_events

  drop_event : Router Db → Event → Router Db
  drop_event r e = record r {
    dropped_events = increment r.dropped_events;
    pool = put_event e r.pool;
  }

  -- The `select` that sends or finds the queue full.
  enqueue : Router Db → Event → Channel Event × Bool → Router Db × Bool
  unfolding drop_event
  enqueue r e (c, true) = (record r { loop = record r.loop { queue = c } }, true)
  enqueue r e (c, false) = (drop_event r e, false)

  pub submit : Router Db → Event → Router Db × Bool
  unfolding enqueue is_file_read
  submit r e =
      if leb (watermark r.capacity) (length r.queue.buffer) && is_file_read e
      then (drop_event r e, false)
      else enqueue r e (try_send r.queue e)

module _ (sql : Database) where
  open sql use {Db, begins, exec, commit}

  -- A failed statement is logged and passed over.
  try_exec : Db → Stmt → Db
  try_exec tx q = elim (exec tx q) [ none ↦ tx | some tx' ↦ tx' ]

  pub exec_all : Db → List Stmt → Db
  exec_all tx [] = tx
  exec_all tx (q ∷ qs) = exec_all (try_exec tx q) qs

  pub process_batch_event : Db → Event → Db
  unfolding exec_all try_exec
  process_batch_event tx e = exec_all tx (event_stmts e)

  pub process_batch : Db → List Event → Db
  process_batch tx [] = tx
  process_batch tx (e ∷ es) = process_batch (process_batch_event tx e) es

  committed : Db → Option Db → Db
  committed db none = db
  committed db (some db') = db'

  -- What `flushBatch` makes of the database.
  pub flush_store : Db → List Event → Db
  unfolding committed
  flush_store db batch = if begins db then committed db (commit db (process_batch db batch)) else db

  -- Each event of the batch goes back to the pool, on every path.
  pub flush_batch : Router Db → List Event → Router Db
  flush_batch r batch = record r { store = flush_store r.store batch; pool = put_all batch r.pool }

  -- processEvent, which nothing calls.
  pub process_event : Router Db → Event → Router Db
  process_event r e = flush_batch r (e ∷ [])

  settle : Router Db → Loop Event × Option (List Event) → Router Db
  settle r (l, none) = record r { loop = l }
  settle r (l, some batch) = flush_batch (record r { loop = l }) batch

  -- One round of the goroutine's loop.
  pub serve : Router Db → Signal → Router Db
  unfolding settle
  serve r s = settle r (Batcher.step s r.loop)

  pub step : Router Db → Action → Router Db
  step r (submits e) = (submit r e).0
  step r receives = serve r Signal.arrives
  step r ticks = serve r Signal.ticks
  step r closes = serve r Signal.closes
  step r empties = serve r Signal.empties

  pub run : Router Db → List Action → Router Db
  run r [] = r
  run r (a ∷ rest) = run (step r a) rest

  flush_all : Router Db → List (List Event) → Router Db
  flush_all r [] = r
  flush_all r (b ∷ bs) = flush_all (flush_batch r b) bs

  -- Stop: `closeChan` is closed, and the goroutine is waited for, while no producer submits.
  pub stop : Router Db → Router Db
  unfolding flush_all
  stop r =
      let closed = serve r Signal.closes in
      let (l, batches) = Batcher.drain (suc (length closed.queue.buffer)) closed.loop in
      record (flush_all closed batches) { loop = l }
