-- ===== src/Router/Shutdown.antt =====
-- Stop leaves nothing behind.
use aegis_edr.Prelude.{◌≡◌, refl, ap, suc, List, [], ◌∷◌, arith, length, concat}
use aegis_edr.Storage.Sql.{Database}
use aegis_edr.Batcher.{Loop, Signal, running, draining, stopped, contents, drain}
use aegis_edr.Batcher.Drain.{drain_ends, step-closes}
use aegis_edr.Router.{Event, Router, serve, settle, flush_batch, flush_all, stop}
use aegis_edr.Router.Delivery.{stored}

module _ (sql : Database) where
  open sql use {Db}

  store-flush_all :
      (r : Router Db) (bs : List (List Event)) → (flush_all sql r bs).store ≡ stored sql r.store bs
  unfolding flush_all flush_batch
  store-flush_all r [] = refl
  store-flush_all r (b ∷ bs) = store-flush_all (flush_batch sql r b) bs

  serve-closes :
      (r : Router Db)
      → r.phase ≡ running
      → serve sql r Signal.closes ≡ record r { loop = record r.loop { phase = draining } }
  unfolding serve settle
  serve-closes r p = ap (settle sql r) (step-closes r.loop p)

  -- Stop on a running router ends: the goroutine has returned, the queue and the batch are empty,
  -- and the database has got all events that were accepted and not yet flushed, in order.
  pub stop_flushes :
      (r : Router Db)
      → r.phase ≡ running
      → (bs : List (List Event)) × (concat bs ≡ contents r.loop)
        × ((stop sql r).store ≡ stored sql r.store bs)
        × (contents (stop sql r).loop ≡ [])
        × ((stop sql r).phase ≡ stopped)
  unfolding stop
  stop_flushes r p =
      let l : Loop Event = record r.loop { phase = draining } in
      let d = drain_ends (suc (length r.queue.buffer)) l r.queue.buffer refl refl (omega arith) in
      rw (serve-closes r p) (
        (drain (suc (length r.queue.buffer)) l).1,
        d.2,
        store-flush_all (record r { loop = l }) (drain (suc (length r.queue.buffer)) l).1,
        d.1,
        d.0,
      )
