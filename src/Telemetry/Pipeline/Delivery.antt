-- ===== src/Telemetry/Pipeline/Delivery.antt =====
-- What the goroutine of Start does with the queue.
use mathlib.Core.List.{append_assoc, append-nil}
use mathlib.Core.Path.{ap₂}
use aegis_edr.Prelude.{
  ◌≡◌, refl, sym, ap, ◌∙◌, String, Option, none, some, List, [], ◌∷◌, ◌++◌, arith,
}
use aegis_edr.Storage.Sql.{Database}
use aegis_edr.Batcher
use aegis_edr.Batcher.{Loop, Phase, Signal, contents, handed, listed}
use aegis_edr.Batcher.Order.{step-contents}
use aegis_edr.Telemetry.{Event}
use aegis_edr.Telemetry.Pipeline.{
  Pipeline, Arrival, normalize, ingest, settle, serve, flush_batch, deliver, persist, call,
}
use aegis_edr.Telemetry.Pipeline.Ingest.{buffered, fate, ingest-fate}

-- A history of the pipeline: calls of Ingest, and rounds of the goroutine.
pub data Action : Type 0 where
  ingests : Arrival → Action
  goes : Signal → Action

-- What the hooks make of events, each one given to the correlation hook first.
abbrev pub hook_all :
    {Hooked : Type 0}
    → Option (Event → Hooked → Hooked)
    → Option (Event → Hooked → Hooked)
    → Hooked
    → List Event
    → Hooked
hook_all correlation analytics h [] = h
hook_all correlation analytics h (e ∷ es) =
    hook_all correlation analytics (call analytics e (call correlation e h)) es

module _ (sha256_hex : String → String) (sql : Database) {Hooked : Type 0} where
  open sql use {Db}

  pub step : Pipeline Db Hooked → Action → Pipeline Db Hooked
  step p (ingests a) = ingest sha256_hex p a
  step p (goes s) = serve sql p s

  pub run : Pipeline Db Hooked → List Action → Pipeline Db Hooked
  run p [] = p
  run p (a ∷ rest) = run (step p a) rest

  abbrev accepts : Pipeline Db Hooked → Action → List Event
  accepts p (ingests a) = elim (fate sha256_hex p a) [
    | buffered ↦ normalize sha256_hex a.raw a.stamped ∷ []
    | _ ↦ []
  ]
  accepts p (goes s) = []

  abbrev sends : Pipeline Db Hooked → Action → List Event
  sends p (ingests a) = []
  sends p (goes s) = handed (Batcher.step s p.loop).1

  -- The events that a history buffers, and those that it hands to `flushBatch`.
  abbrev pub accepted : Pipeline Db Hooked → List Action → List Event
  accepted p [] = []
  accepted p (a ∷ rest) = accepts p a ++ accepted (step p a) rest

  abbrev pub flushed : Pipeline Db Hooked → List Action → List Event
  flushed p [] = []
  flushed p (a ∷ rest) = sends p a ++ flushed (step p a) rest

  -- The hooks have seen these events, and the hooks and the loop are as they were.
  pub record Hooks (p : Pipeline Db Hooked) (es : List Event) (q : Pipeline Db Hooked)
      : Type 0 where
    pub seen : q.hooked ≡ hook_all p.correlation_hook p.analytics_hook p.hooked es
    pub same_correlation : q.correlation_hook ≡ p.correlation_hook
    pub same_analytics : q.analytics_hook ≡ p.analytics_hook

  Hooks-trans :
      (p q r : Pipeline Db Hooked) (es fs : List Event)
      → Hooks p es q
      → Hooks q fs r
      → Hooks p (es ++ fs) r
  Hooks-trans p q r es fs h k = record {
    seen =
        k.seen
        ∙ (λ i. hook_all (h.same_correlation i) (h.same_analytics i) (h.seen i) fs)
        ∙ sym (hook_all-append p.hooked es);
    same_correlation = k.same_correlation ∙ h.same_correlation;
    same_analytics = k.same_analytics ∙ h.same_analytics;
  }
    where
      hook_all-append :
          (x : Hooked) (es : List Event)
          → hook_all p.correlation_hook p.analytics_hook x (es ++ fs)
            ≡ hook_all p.correlation_hook p.analytics_hook
                (hook_all p.correlation_hook p.analytics_hook x es)
                fs
      hook_all-append x [] = refl
      hook_all-append x (e ∷ es) =
          hook_all-append (call p.analytics_hook e (call p.correlation_hook e x)) es

  persist_keeps :
      (p : Pipeline Db Hooked) (e : Event)
      → ((persist sql p e).correlation_hook ≡ p.correlation_hook)
        × ((persist sql p e).analytics_hook ≡ p.analytics_hook)
        × ((persist sql p e).loop ≡ p.loop)
  unfolding persist
  persist_keeps p e = ground arith

  deliver-Hooks : (p : Pipeline Db Hooked) (e : Event) → Hooks p (e ∷ []) (deliver sql p e)
  unfolding deliver
  deliver-Hooks p e =
      let k = persist_keeps p e in
      record { seen = refl; same_correlation = k.0; same_analytics = k.1 }

  flush_batch-Hooks : (p : Pipeline Db Hooked) (es : List Event) → Hooks p es (flush_batch sql p es)
  unfolding flush_batch
  flush_batch-Hooks p [] = record { seen = refl; same_correlation = refl; same_analytics = refl }
  flush_batch-Hooks p (e ∷ es) =
      let q = deliver sql p e in
      Hooks-trans p q (flush_batch sql q es) (e ∷ []) es (deliver-Hooks p e)
        (flush_batch-Hooks q es)

  loop-flush_batch :
      (p : Pipeline Db Hooked) (es : List Event) → (flush_batch sql p es).loop ≡ p.loop
  unfolding flush_batch deliver
  loop-flush_batch p [] = refl
  loop-flush_batch p (e ∷ es) = loop-flush_batch (deliver sql p e) es ∙ (persist_keeps p e).2

  settle_lem :
      (p : Pipeline Db Hooked) (o : Loop Event × Option (List Event))
      → ((settle sql p o).loop ≡ o.0) × Hooks p (handed o.1) (settle sql p o)
  unfolding settle
  settle_lem p (l, none) =
      (refl, record { seen = refl; same_correlation = refl; same_analytics = refl })
  settle_lem p (l, some b) =
      let h = flush_batch-Hooks (record p { loop = l }) b in
      (
        loop-flush_batch (record p { loop = l }) b,
        record {
          seen = h.seen;
          same_correlation = h.same_correlation;
          same_analytics = h.same_analytics;
        },
      )

  abbrev Moves : Pipeline Db Hooked → Action → Type 0
  Moves p a =
      (sends p a ++ contents (step p a).loop ≡ contents p.loop ++ accepts p a)
      × Hooks p (sends p a) (step p a)

  ingest-Moves : (p : Pipeline Db Hooked) (a : Arrival) → Moves p (ingests a)
  unfolding step
  ingest-Moves p a =
      let i = ingest-fate sha256_hex p a in
      (
        ap₂ (λ b q. b ++ q) i.batch_kept i.queued
            ∙ sym (append_assoc p.batch p.queue.buffer (accepts p (ingests a))),
        record {
          seen = i.hooked_kept;
          same_correlation = i.correlation_kept;
          same_analytics = i.analytics_kept;
        },
      )

  step-Moves : (p : Pipeline Db Hooked) (a : Action) → Moves p a
  step-Moves p (ingests a) = ingest-Moves p a
  step-Moves p (goes s) =
      let o = Batcher.step s p.loop in
      let k = settle_lem p o in
      unfold step serve in
      (
        ap (λ l. handed o.1 ++ contents l) k.0
            ∙ step-contents s p.loop
            ∙ sym (append-nil (contents p.loop)),
        k.1,
      )

  -- Over any history, the events handed to flushBatch and those still queued are those held first
  -- and those buffered since, in order, and the hooks have seen exactly the former, in order.
  pub run_delivers :
      (p : Pipeline Db Hooked) (actions : List Action)
      → (flushed p actions ++ contents (run p actions).loop ≡ contents p.loop ++ accepted p actions)
        × Hooks p (flushed p actions) (run p actions)
  unfolding run
  run_delivers p [] = (
    sym (append-nil (contents p.loop)),
    record { seen = refl; same_correlation = refl; same_analytics = refl },
  )
  run_delivers p (a ∷ rest) =
      let q = step p a in
      let (order, hooks) = run_delivers q rest in
      let (order', hooks') = step-Moves p a in
      (
        append_assoc (sends p a) (flushed q rest) (contents (run q rest).loop)
            ∙ ap (◌++◌ (sends p a)) order
            ∙ sym (append_assoc (sends p a) (contents q.loop) (accepted q rest))
            ∙ ap (λ l. l ++ accepted q rest) order'
            ∙ append_assoc (contents p.loop) (accepts p a) (accepted q rest),
        Hooks-trans p q (run q rest) (sends p a) (flushed q rest) hooks' hooks,
      )
