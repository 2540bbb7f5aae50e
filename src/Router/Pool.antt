-- ===== src/Router/Pool.antt =====
-- The invariant of the router: its sizes, and the objects that wait in the pool.
use aegis_edr.Prelude.{
  ℕ, ◌≤◌, ◌<◌, ◌≡◌, refl, ◌∙◌, List, [], ◌∷◌, arith, Option, none, some, length, All, All-append,
  length-append,
}
use aegis_edr.Channel.{Fits, try_send}
use aegis_edr.Storage.Sql.{Database}
use aegis_edr.Batcher
use aegis_edr.Batcher.{Loop, Signal, IsSmall, listed}
use aegis_edr.Batcher.Order.{step-IsSmall}
use aegis_edr.Batcher.Bounds.{step-Fits}
use aegis_edr.Router.{
  Event, Router, Action, submits, receives, ticks, closes, empties, enqueue, submit, drop_event,
  settle, serve, step, run, flush_batch, put_event, put_all, blank, EventPool, get_event,
  new_router,
}
use aegis_edr.Router.Delivery.{batches, sends}

abbrev pub IsBlank : Event → Type 0
IsBlank e = e ≡ blank

pub record IsValid {Db : Type 0} (r : Router Db) : Type 0 where
  pub batch_small : length r.batch < 100
  pub queue_fits : Fits r.queue
  pub same_capacity : r.queue.capacity ≡ r.capacity
  pub pool_blank : All IsBlank r.pool

put_all-IsBlank :
    (es : List Event) (pool : EventPool) → All IsBlank pool → All IsBlank (put_all es pool)
unfolding put_all put_event
put_all-IsBlank [] pool h = h
put_all-IsBlank (e ∷ es) pool h = put_all-IsBlank es (put_event e pool) (refl, h)

module _ {Db : Type 0} where
  new_router-IsValid : (capacity : ℕ) (db : Db) → IsValid (new_router capacity db)
  unfolding new_router
  new_router-IsValid capacity db = record {
    batch_small = omega arith;
    queue_fits = omega arith;
    same_capacity = refl;
    pool_blank = tt;
  }

  submit-IsValid : (r : Router Db) (e : Event) → IsValid r → IsValid (submit r e).0
  unfolding submit enqueue drop_event try_send put_event
  submit-IsValid r e v = ground (arith, length-append r.queue.buffer (e ∷ []))

module _ (sql : Database) where
  open sql use {Db}

  settle-IsValid :
      (r : Router Db) (o : Loop Event × Option (List Event))
      → length o.0.batch < 100
      → Fits o.0.queue
      → o.0.queue.capacity ≡ r.capacity
      → All IsBlank r.pool
      → IsValid (settle sql r o)
  unfolding settle flush_batch
  settle-IsValid r (l, none) h f c p = record {
    batch_small = h;
    queue_fits = f;
    same_capacity = c;
    pool_blank = p;
  }
  settle-IsValid r (l, some b) h f c p = record {
    batch_small = h;
    queue_fits = f;
    same_capacity = c;
    pool_blank = put_all-IsBlank b r.pool p;
  }

  serve-IsValid : (r : Router Db) (s : Signal) → IsValid r → IsValid (serve sql r s)
  unfolding serve
  serve-IsValid r s v =
      let f = step-Fits s r.loop v.queue_fits in
      settle-IsValid r (Batcher.step s r.loop) (step-IsSmall s r.loop v.batch_small).0 f.0
        (f.1 ∙ v.same_capacity) v.pool_blank

  step-IsValid : (r : Router Db) (a : Action) → IsValid r → IsValid (step sql r a)
  unfolding step
  step-IsValid r (submits e) v = submit-IsValid r e v
  step-IsValid r receives v = serve-IsValid r Signal.arrives v
  step-IsValid r ticks v = serve-IsValid r Signal.ticks v
  step-IsValid r closes v = serve-IsValid r Signal.closes v
  step-IsValid r empties v = serve-IsValid r Signal.empties v

  -- Every history keeps the batch below 100 events, the queue within its capacity, and only
  -- cleared objects in the pool.
  pub run-IsValid :
      (r : Router Db) (actions : List Action) → IsValid r → IsValid (run sql r actions)
  unfolding run
  run-IsValid r [] v = v
  run-IsValid r (a ∷ rest) v = run-IsValid (step sql r a) rest (step-IsValid r a v)

  abbrev pub IsBatch : List Event → Type 0
  IsBatch b = (1 ≤ length b) × (length b ≤ 100)

  listed-IsBatch : (b : Option (List Event)) → IsSmall b → All IsBatch (listed b)
  listed-IsBatch none h = tt
  listed-IsBatch (some b) h = (h, tt)

  sends-IsBatch : (r : Router Db) (a : Action) → IsValid r → All IsBatch (sends r a)
  sends-IsBatch r (submits e) v = tt
  sends-IsBatch r receives v =
      listed-IsBatch (Batcher.step Signal.arrives r.loop).1
        (step-IsSmall Signal.arrives r.loop v.batch_small).1
  sends-IsBatch r ticks v =
      listed-IsBatch (Batcher.step Signal.ticks r.loop).1
        (step-IsSmall Signal.ticks r.loop v.batch_small).1
  sends-IsBatch r closes v =
      listed-IsBatch (Batcher.step Signal.closes r.loop).1
        (step-IsSmall Signal.closes r.loop v.batch_small).1
  sends-IsBatch r empties v =
      listed-IsBatch (Batcher.step Signal.empties r.loop).1
        (step-IsSmall Signal.empties r.loop v.batch_small).1

  -- In every history each transaction holds 1 to 100 events.
  pub batches-IsBatch :
      (r : Router Db) (actions : List Action) → IsValid r → All IsBatch (batches sql r actions)
  batches-IsBatch r [] v = tt
  batches-IsBatch r (a ∷ rest) v =
      All-append IsBatch (sends r a) (batches sql (step sql r a) rest) (sends-IsBatch r a v)
        (batches-IsBatch (step sql r a) rest (step-IsValid r a v))

  -- An object taken from the pool after any history of a new router is as good as a new one.
  pub get_event-blank :
      (capacity : ℕ) (db : Db) (actions : List Action)
      → (get_event (run sql (new_router capacity db) actions).pool).0 ≡ blank
  unfolding get_event
  get_event-blank capacity db actions =
      first (run sql (new_router capacity db) actions).pool
        (run-IsValid (new_router capacity db) actions (new_router-IsValid capacity db)).pool_blank
    where
      first : (pool : EventPool) → All IsBlank pool → (get_event pool).0 ≡ blank
      first [] h = refl
      first (e ∷ pool) h = h.0
