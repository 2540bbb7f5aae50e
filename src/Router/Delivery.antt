-- ===== src/Router/Delivery.antt =====
-- What becomes of the accepted events, whatever the producers, the goroutine and the ticker do and
-- in whatever order.
use mathlib.Core.List.{append_assoc, append-nil}
use aegis_edr.Prelude.{
  ◌≡◌, refl, sym, ap, ◌∙◌, List, [], ◌∷◌, ◌++◌, arith, Option, none, some, if◌then◌else◌, concat,
  concat-append,
}
use aegis_edr.Channel.{try_send}
use aegis_edr.Storage.Sql.{Database}
use aegis_edr.Batcher
use aegis_edr.Batcher.{Loop, Signal, contents, handed, listed, IsSmall}
use aegis_edr.Batcher.Order.{step-contents}
use aegis_edr.Router.{
  Event, Router, Action, submits, receives, ticks, closes, empties, enqueue, submit, drop_event,
  settle, serve, step, run, flush_batch, flush_store,
}

-- The branch of the `select` that an action of the goroutine takes.
abbrev pub signal : Action → Option Signal
signal (submits e) = none
signal receives = some Signal.arrives
signal ticks = some Signal.ticks
signal closes = some Signal.closes
signal empties = some Signal.empties

module _ {Db : Type 0} where
  -- The events that a step accepts, and the batches that it hands to `flushBatch`.
  abbrev pub accepts : Router Db → Action → List Event
  accepts r (submits e) = if (submit r e).1 then e ∷ [] else []
  accepts r _ = []

  abbrev pub sends : Router Db → Action → List (List Event)
  sends r a = elim (signal a) [ none ↦ [] | some s ↦ listed (Batcher.step s r.loop).1 ]

module _ (sql : Database) where
  open sql use {Db}

  abbrev pub accepted : Router Db → List Action → List Event
  accepted r [] = []
  accepted r (a ∷ rest) = accepts r a ++ accepted (step sql r a) rest

  abbrev pub batches : Router Db → List Action → List (List Event)
  batches r [] = []
  batches r (a ∷ rest) = sends r a ++ batches (step sql r a) rest

  -- The store after some batches.
  abbrev pub stored : Db → List (List Event) → Db
  stored db [] = db
  stored db (b ∷ bs) = stored (flush_store sql db b) bs

  settle_loop :
      (r : Router Db) (o : Loop Event × Option (List Event))
      → ((settle sql r o).loop ≡ o.0) × ((settle sql r o).store ≡ stored r.store (listed o.1))
  unfolding settle flush_batch
  settle_loop r (l, none) = (refl, refl)
  settle_loop r (l, some b) = (refl, refl)

  concat-listed : (b : Option (List Event)) → concat (listed b) ≡ handed b
  concat-listed none = refl
  concat-listed (some b) = append-nil b

  abbrev Moves : Router Db → Action → Type 0
  Moves r a =
      (concat (sends r a) ++ contents (step sql r a).loop ≡ contents r.loop ++ accepts r a)
      × ((step sql r a).store ≡ stored r.store (sends r a))

  pub serve_moves :
      (r : Router Db) (s : Signal)
      → (concat (listed (Batcher.step s r.loop).1) ++ contents (serve sql r s).loop
          ≡ contents r.loop ++ [])
        × ((serve sql r s).store ≡ stored r.store (listed (Batcher.step s r.loop).1))
  unfolding serve
  serve_moves r s =
      let o = Batcher.step s r.loop in
      let k = settle_loop r o in
      (
        ap (λ l. concat (listed o.1) ++ contents l) k.0
            ∙ ap (λ b. b ++ contents o.0) (concat-listed o.1)
            ∙ step-contents s r.loop
            ∙ sym (append-nil (contents r.loop)),
        k.1,
      )

  submit-Moves : (r : Router Db) (e : Event) → Moves r (submits e)
  unfolding step submit enqueue drop_event try_send
  submit-Moves r e =
      ground (arith, append_assoc r.batch r.queue.buffer (e ∷ []), append-nil (contents r.loop))

  step-Moves : (r : Router Db) (a : Action) → Moves r a
  unfolding step
  step-Moves r (submits e) = submit-Moves r e
  step-Moves r receives = serve_moves r Signal.arrives
  step-Moves r ticks = serve_moves r Signal.ticks
  step-Moves r closes = serve_moves r Signal.closes
  step-Moves r empties = serve_moves r Signal.empties

  stored-append :
      (db : Db) (xs ys : List (List Event)) → stored db (xs ++ ys) ≡ stored (stored db xs) ys
  stored-append db [] ys = refl
  stored-append db (x ∷ xs) ys = stored-append (flush_store sql db x) xs ys

  -- Over any history, the batches, then what the router still holds, are what it held first and
  -- the accepted events, in order: no accepted event is lost, repeated or overtaken.
  pub run_order :
      (r : Router Db) (actions : List Action)
      → concat (batches r actions) ++ contents (run sql r actions).loop
        ≡ contents r.loop ++ accepted r actions
  unfolding run
  run_order r [] = sym (append-nil (contents r.loop))
  run_order r (a ∷ rest) =
      let ih = run_order (step sql r a) rest in
      let bs = batches (step sql r a) rest in
      let end = contents (run sql (step sql r a) rest).loop in
      ap (λ l. l ++ end) (concat-append (sends r a) bs)
      ∙ append_assoc (concat (sends r a)) (concat bs) end
      ∙ ap (◌++◌ (concat (sends r a))) ih
      ∙ sym (
          append_assoc (concat (sends r a)) (contents (step sql r a).loop)
            (accepted (step sql r a) rest))
      ∙ ap (λ l. l ++ accepted (step sql r a) rest) (step-Moves r a).0
      ∙ append_assoc (contents r.loop) (accepts r a) (accepted (step sql r a) rest)

  -- The database sees these batches, in this order, and nothing else.
  pub run_store :
      (r : Router Db) (actions : List Action)
      → (run sql r actions).store ≡ stored r.store (batches r actions)
  unfolding run
  run_store r [] = refl
  run_store r (a ∷ rest) =
      run_store (step sql r a) rest
      ∙ ap (λ db. stored db (batches (step sql r a) rest)) (step-Moves r a).1
      ∙ sym (stored-append r.store (sends r a) (batches (step sql r a) rest))
