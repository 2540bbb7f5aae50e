-- ===== src/Telemetry/Pipeline/Ingest.antt =====
-- Every raw event meets one fate, and the counters and the queue say which.
use aegis_edr.Prelude.{
  increment, ℕ, suc, ◌+◌, ◌^◌, ◌≡◌, ◌<◌, String, Option, List, [], ◌∷◌, ◌++◌, arith, ltb,
  if◌then◌else◌, length,
}
use mathlib.Core.List.{append-nil}
use aegis_edr.Channel.{try_send}
use aegis_edr.Telemetry.{should_filter}
use aegis_edr.Telemetry.Dedup.{is_duplicate}
use aegis_edr.Telemetry.Pipeline.{
  Pipeline, Arrival, normalize, buffer_event, ingest, ingest_all, new_pipeline,
}

pub data Fate : Type 0 where
  deduplicated filtered buffered overflowed : Fate

abbrev pub count_overflowed : Fate → ℕ
count_overflowed overflowed = 1
count_overflowed _ = 0

module _ (sha256_hex : String → String) {Db Hooked : Type 0} where
  -- What becomes of a raw event, from the event that it is normalised to.
  unfoldable pub fate : Pipeline Db Hooked → Arrival → Fate
  fate p a =
      let e = normalize sha256_hex a.raw a.stamped in
      if (is_duplicate p.dedup e a.seen).1
      then deduplicated
      else if should_filter p.filter e
      then filtered
      else if ltb (length p.queue.buffer) p.queue.capacity
      then buffered
      else overflowed

  -- One step of Ingest in terms of the fate.
  pub record Ingested (p : Pipeline Db Hooked) (a : Arrival) (f : Fate) (q : Pipeline Db Hooked)
      : Type 0 where
    pub ingested : q.metrics.ingested_count ≡ increment p.metrics.ingested_count
    pub normalized : q.metrics.normalized_count ≡ increment p.metrics.normalized_count
    pub deduplicated_counted :
        q.metrics.deduplicated
        ≡ elim f [ deduplicated ↦ increment p.metrics.deduplicated | _ ↦ p.metrics.deduplicated ]
    pub filtered_counted :
        q.metrics.filtered_count
        ≡ elim f [ filtered ↦ increment p.metrics.filtered_count | _ ↦ p.metrics.filtered_count ]
    pub buffered_counted :
        q.metrics.buffered_count
        ≡ elim f [ buffered ↦ increment p.metrics.buffered_count | _ ↦ p.metrics.buffered_count ]
    pub queued :
        q.queue.buffer
        ≡ p.queue.buffer ++ elim f [ buffered ↦ normalize sha256_hex a.raw a.stamped ∷ [] | _ ↦ [] ]
    pub batch_kept : q.batch ≡ p.batch
    pub phase_kept : q.phase ≡ p.phase
    pub store_kept : q.store ≡ p.store
    pub hooked_kept : q.hooked ≡ p.hooked
    pub correlation_kept : q.correlation_hook ≡ p.correlation_hook
    pub analytics_kept : q.analytics_hook ≡ p.analytics_hook
    pub filter_kept : q.filter ≡ p.filter
    pub dedup_updated :
        q.dedup ≡ (is_duplicate p.dedup (normalize sha256_hex a.raw a.stamped) a.seen).0

  -- Ingest counts each raw event as ingested and normalised, then as exactly one of deduplicated,
  -- filtered or buffered, or drops it uncounted when the queue is full; only a buffered event
  -- enters the queue, at its end, and only the deduplicator and the counters change besides.
  pub ingest-fate :
      (p : Pipeline Db Hooked) (a : Arrival) → Ingested p a (fate p a) (ingest sha256_hex p a)
  unfolding ingest buffer_event fate try_send
  ingest-fate p a = ground (arith, append-nil p.queue.buffer)

  -- How many events a series of calls drops because the queue is full.
  pub overflow : Pipeline Db Hooked → List Arrival → ℕ
  overflow p [] = 0
  overflow p (a ∷ rest) = count_overflowed (fate p a) + overflow (ingest sha256_hex p a) rest

  abbrev Balanced : Pipeline Db Hooked → ℕ → Type 0
  Balanced p lost =
      (p.metrics.normalized_count ≡ p.metrics.ingested_count)
      × (p.metrics.deduplicated + p.metrics.filtered_count + p.metrics.buffered_count + lost
          ≡ p.metrics.ingested_count)

  Ingested-Balanced :
      (p q : Pipeline Db Hooked) (a : Arrival) (f : Fate) (lost : ℕ)
      → Ingested p a f q
      → suc p.metrics.ingested_count < 2 ^ 64
      → Balanced p lost
      → Balanced q (lost + count_overflowed f)
        × (q.metrics.ingested_count ≡ suc p.metrics.ingested_count)
  Ingested-Balanced p q a deduplicated lost i h b = omega (
    arith, i.ingested, i.normalized, i.deduplicated_counted, i.filtered_counted, i.buffered_counted,
  )
  Ingested-Balanced p q a filtered lost i h b = omega (
    arith, i.ingested, i.normalized, i.deduplicated_counted, i.filtered_counted, i.buffered_counted,
  )
  Ingested-Balanced p q a buffered lost i h b = omega (
    arith, i.ingested, i.normalized, i.deduplicated_counted, i.filtered_counted, i.buffered_counted,
  )
  Ingested-Balanced p q a overflowed lost i h b = omega (
    arith, i.ingested, i.normalized, i.deduplicated_counted, i.filtered_counted, i.buffered_counted,
  )

  ingest_all-Balanced :
      (p : Pipeline Db Hooked) (arrivals : List Arrival) (lost : ℕ)
      → p.metrics.ingested_count + length arrivals < 2 ^ 64
      → Balanced p lost
      → Balanced (ingest_all sha256_hex p arrivals) (lost + overflow p arrivals)
        × ((ingest_all sha256_hex p arrivals).metrics.ingested_count
            ≡ p.metrics.ingested_count + length arrivals)
  unfolding ingest_all overflow
  ingest_all-Balanced p [] lost h b = omega arith
  ingest_all-Balanced p (a ∷ rest) lost h b =
      let q = ingest sha256_hex p a in
      let (b', n) = Ingested-Balanced p q a (fate p a) lost (ingest-fate p a) (omega arith) b in
      let (c, m) =
        ingest_all-Balanced q rest (lost + count_overflowed (fate p a)) (omega arith) b' in
      omega (arith, c, m)

  -- After fewer than 2 ^ 64 calls of Ingest on a new pipeline, the ingested events are as many as
  -- the calls and as the normalised ones, and each was deduplicated, filtered, buffered or lost in
  -- a queue overflow.
  pub ingest_all_balanced :
      (capacity dedup_ttl : ℕ) (store : Option Db) (excludes : List String) (hooked : Hooked)
      (arrivals : List Arrival)
      → length arrivals < 2 ^ 64
      → let p = new_pipeline capacity store dedup_ttl excludes hooked in
        let q = ingest_all sha256_hex p arrivals in
        (q.metrics.ingested_count ≡ length arrivals)
        × (q.metrics.normalized_count ≡ length arrivals)
        × (q.metrics.deduplicated
              + q.metrics.filtered_count
              + q.metrics.buffered_count
              + overflow p arrivals
            ≡ length arrivals)
  unfolding new_pipeline
  ingest_all_balanced capacity dedup_ttl store excludes hooked arrivals h =
      let p = new_pipeline capacity store dedup_ttl excludes hooked in
      let (b, n) = ingest_all-Balanced p arrivals 0 (omega arith) (omega arith) in
      omega (arith, b, n)
